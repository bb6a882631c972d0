-- ===== src/Cli.antt =====
-- Helpers of native/src/main.cpp: the text of a JSON string, the options of the command line, and the
-- wallet file.
pub mod Json
pub mod Options
pub mod WalletFile
mod Tests
use tron_wallet_searcher.Common.{
  ℕ, ◌+◌, ◌-◌, ◌*◌, ◌/◌, ◌%◌, ◌^◌, List, [], ◌∷◌, ◌++◌, Bool, true, false, not, ◌==◌, ◌&&◌, ◌||◌,
  ltb, leb, if◌then◌else◌, length, take, drop, Option, none, some, Result, ok, err, Exception,
  invalid_argument, runtime_error, ◌>>=◌, ◌>>◌, throw_if, text, text_eq,
}
use tron_wallet_searcher.Hex.{hex_digit}
use tron_wallet_searcher.Scalars.{value_or}

-- What one character is written as. `std::hex` with width 2 writes the control characters.
unfoldable pub json_character : ℕ → List ℕ
json_character character =
    if character == b'"'
    then b'\\' ∷ b'"' ∷ []
    else if character == b'\\'
    then b'\\' ∷ b'\\' ∷ []
    else if character == b'\n'
    then b'\\' ∷ b'n' ∷ []
    else if character == b'\r'
    then b'\\' ∷ b'r' ∷ []
    else if character == b'\t'
    then b'\\' ∷ b't' ∷ []
    else if ltb character 0x20
    then b'\\' ∷ b'u' ∷ b'0' ∷ b'0' ∷ hex_digit (character / 16) ∷ hex_digit (character % 16) ∷ []
    else character ∷ []

unfoldable pub json_escape : List ℕ → List ℕ
json_escape [] = []
json_escape (character ∷ rest) = json_character character ++ json_escape rest

-- An `unordered_map`, as the list of its pairs.
abbrev pub Options : Type 0
Options = List (List ℕ × List ℕ)

unfoldable pub find_option : Options → List ℕ → Option (List ℕ)
find_option [] name = none
find_option ((key, value) ∷ rest) name =
    if text_eq key name then some value else find_option rest name

-- `key.starts_with("--")`
unfoldable pub starts_with_dashes : List ℕ → Bool
starts_with_dashes [] = false
starts_with_dashes (c ∷ []) = false
starts_with_dashes (c ∷ d ∷ rest) = (c == b'-') && (d == b'-')

abbrev pub not_pairs : Exception
not_pairs = invalid_argument (text "Options must use --name value pairs.")

abbrev pub given_twice : List ℕ → Exception
given_twice key = invalid_argument (text "Option was provided more than once: " ++ key)

abbrev pub is_some : Option (List ℕ) → Bool
is_some none = false
is_some (some value) = true

-- The loop over the arguments that are left, with the options so far.
unfoldable pub parse_arguments : List (List ℕ) → Options → Result Options
parse_arguments [] options = ok options
parse_arguments (key ∷ []) options = err not_pairs
parse_arguments (key ∷ value ∷ rest) options = do
  throw_if (not (starts_with_dashes key)) not_pairs
  throw_if (is_some (find_option options (drop 2 key))) (given_twice key)
  parse_arguments rest (options ++ (drop 2 key, value) ∷ [])

unfoldable pub parse_options : List (List ℕ) → Result Options
parse_options arguments = parse_arguments arguments []

unfoldable pub required : Options → List ℕ → Result (List ℕ)
required options name =
    value_or (find_option options name)
      (invalid_argument (text "Missing required option --" ++ name ++ text "."))

-- What the system answers to `write`: a number of bytes, EINTR, or another error.
pub data WriteAnswer : Type 0 where
  wrote : ℕ → WriteAnswer
  interrupted : WriteAnswer
  write_error : List ℕ → WriteAnswer

-- What it answers to `open`, `fsync` and `close`: an error text, or none.
pub record SystemAnswers : Type 0 where
  pub open_error : Option (List ℕ)
  pub writes : List WriteAnswer
  pub fsync_error : Option (List ℕ)
  pub close_error : Option (List ℕ)
  -- Whether `unlink`, whose result the source does not read, removes the file.
  pub unlinks : Bool

-- `strerror(EIO)` is the system's too.
pub record FileOutcome : Type 0 where
  pub result : Result (Unit {0})
  -- The file at the path: none when it is not there.
  pub file : Option (List ℕ)

unfoldable pub throw_file_error {ℓ} : {A : Type ℓ} → List ℕ → List ℕ → List ℕ → Result A
throw_file_error operation path error =
    err (runtime_error (operation ++ text " " ++ path ++ text ": " ++ error))

-- What the write loop ends with: the bytes that the file has, and whether all went well.
pub record Written : Type 0 where
  pub result : Result (Unit {0})
  pub bytes : List ℕ

-- `while (position < contents.size())`, over the system's answers; none when those are at an end
-- while the loop still goes on.
unfoldable pub write_loop :
    List ℕ → List ℕ → List WriteAnswer → List ℕ → ℕ → List ℕ → Option Written
write_loop path io_error [] contents position bytes =
    if ltb position (length contents) then none else some (record { result = ok tt; bytes = bytes })
write_loop path io_error (answer ∷ answers) contents position bytes =
    elim (ltb position (length contents)) [
      | false ↦ some (record { result = ok tt; bytes = bytes })
      | true ↦ elim answer [
        | interrupted ↦ write_loop path io_error answers contents position bytes
        | write_error error ↦ some (record {
          result = throw_file_error (text "Could not write wallet file") path error;
          bytes = bytes;
        })
        | wrote count ↦
            if count == 0
            then some (record {
              result = throw_file_error (text "Could not write wallet file") path io_error;
              bytes = bytes;
            })
            else write_loop path io_error answers contents (position + count)
                (bytes ++ take count (drop position contents))
      ]
    ]

-- `if (failed) { throw_file_error(…); }`
unfoldable pub check_call : List ℕ → List ℕ → Option (List ℕ) → Result (Unit {0})
check_call operation path none = ok tt
check_call operation path (some error) = throw_file_error operation path error

-- The `catch`: whatever is thrown behind `open`, the file is unlinked, where that succeeds.
unfoldable pub settle : Bool → Result (Unit {0}) → List ℕ → FileOutcome
settle unlinks (ok done) bytes = record { result = ok done; file = some bytes }
settle unlinks (err thrown) bytes = record {
  result = err thrown;
  file = if unlinks then none else some bytes;
}

-- `before` is what is at the path; `O_EXCL` makes `open` fail where a file is.
unfoldable pub write_private_wallet_file :
    List ℕ → SystemAnswers → List ℕ → List ℕ → Option (List ℕ) → Option FileOutcome
write_private_wallet_file io_error system path contents before = elim system.open_error [
  | some error ↦ some (record {
    result = throw_file_error (text "Could not create wallet file") path error;
    file = before;
  })
  | none ↦ elim (write_loop path io_error system.writes contents 0 []) [
    | none ↦ none
    | some written ↦ some (
        settle system.unlinks
          (written.result
            >> check_call (text "Could not synchronize wallet file") path system.fsync_error
            >> check_call (text "Could not close wallet file") path system.close_error)
          written.bytes)
  ]
]
