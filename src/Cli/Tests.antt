-- ===== src/Cli/Tests.antt =====
-- Runs: a text with every kind of escape, a command line, and a wallet file that is written in parts.
use tron_wallet_searcher.Common.{
  false, ℕ, ◌≡◌, ◌≤◌, ◌↔◌, List, [], ◌∷◌, none, some, ok, arith, length, text,
}
use tron_wallet_searcher.Cli.{
  json_escape, Options, parse_options, wrote, interrupted, write_error, SystemAnswers, FileOutcome,
  write_private_wallet_file,
}
use tron_wallet_searcher.Cli.Json.{json_string, json_string-json_escape}
use tron_wallet_searcher.Cli.Options.{spelled, IsDistinct, parse_options_iff}
use tron_wallet_searcher.Cli.WalletFile.{count_answers, Whole, write_private_wallet_file-ends}

abbrev sample : List ℕ
sample = b'a' ∷ b'"' ∷ b'\\' ∷ b'\n' ∷ 1 ∷ 31 ∷ b'z' ∷ []

json_string-json_escape_example : json_string (json_escape sample) ≡ some sample
json_string-json_escape_example = json_string-json_escape sample (omega arith)

abbrev command_line : List (List ℕ)
command_line = text "--device" ∷ text "0" ∷ []

abbrev command_options : Options
command_options = (text "device", text "0") ∷ []

parse_options_iff_example :
    (parse_options command_line ≡ ok command_options)
    ↔ ((command_line ≡ spelled command_options) × IsDistinct command_options)
parse_options_iff_example = parse_options_iff command_line command_options

abbrev contents : List ℕ
contents = 1 ∷ 2 ∷ 3 ∷ []

abbrev answers : SystemAnswers
answers = record {
  open_error = none;
  writes = wrote 2 ∷ interrupted ∷ wrote 1 ∷ write_error [] ∷ [];
  fsync_error = none;
  close_error = none;
  unlinks = false;
}

enough_answers : length contents ≤ count_answers answers.writes
unfolding count_answers
enough_answers = omega arith

write_private_wallet_file-ends_example :
    (outcome : FileOutcome) × (write_private_wallet_file [] answers
        (text "wallet.json")
        contents
        none
      ≡ some outcome)
    × Whole answers contents outcome
write_private_wallet_file-ends_example =
    write_private_wallet_file-ends [] answers (text "wallet.json") contents enough_answers
