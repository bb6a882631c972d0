-- ===== src/Cli/Options.antt =====
-- The argument lists that `parse_options` of native/src/main.cpp accepts.
use tron_wallet_searcher.Common.{
  ℕ, ◌≡◌, ◌↔◌, refl, sym, ap, ap₂, subst, ◌∙◌, List, [], ◌∷◌, ◌++◌, append-nil, append_assoc, true,
  false, drop, Option, none, some, ok, arith, Bool-cases, inl, inr,
}
use tron_wallet_searcher.Cli.{
  Options, find_option, starts_with_dashes, is_some, parse_arguments, parse_options,
}

-- The arguments that spell some options.
pub spelled : Options → List (List ℕ)
spelled [] = []
spelled ((key, value) ∷ rest) = (b'-' ∷ b'-' ∷ key) ∷ value ∷ spelled rest

-- No key is among the options before it, with `seen` in front.
abbrev pub Fresh : Options → Options → Type 0
Fresh seen [] = Unit {0}
Fresh seen ((key, value) ∷ rest) =
    (find_option seen key ≡ none) × Fresh (seen ++ (key, value) ∷ []) rest

abbrev pub IsDistinct : Options → Type 0
IsDistinct = Fresh []

parse_complete :
    (options seen : Options)
    → Fresh seen options
    → parse_arguments (spelled options) seen ≡ ok (seen ++ options)
unfolding parse_arguments spelled starts_with_dashes
parse_complete [] seen h = ap ok (sym (append-nil seen))
parse_complete ((key, value) ∷ rest) seen h = rw h.0 (
    parse_complete rest (seen ++ (key, value) ∷ []) h.1
    ∙ ap ok (append_assoc seen ((key, value) ∷ []) rest))

dashes : (key : List ℕ) → starts_with_dashes key ≡ true → key ≡ b'-' ∷ b'-' ∷ drop 2 key
unfolding starts_with_dashes
dashes [] h = ground arith
dashes (c ∷ []) h = ground arith
dashes (c ∷ d ∷ key) h = ground arith

ok_injective : {a b : Options} → ok a ≡ ok b → a ≡ b
ok_injective h = ground arith

not_found : (o : Option (List ℕ)) → is_some o ≡ false → o ≡ none
not_found none h = refl
not_found (some v) h = ground arith

abbrev Parsed : List (List ℕ) → Options → Options → Type 0
Parsed arguments seen out =
    (options : Options) × (out ≡ seen ++ options)
    × (arguments ≡ spelled options)
    × Fresh seen options

parse_sound :
    (arguments : List (List ℕ)) (seen out : Options)
    → parse_arguments arguments seen ≡ ok out
    → Parsed arguments seen out
unfolding parse_arguments spelled
parse_sound [] seen out h = ([], ok_injective (sym h) ∙ sym (append-nil seen), refl, tt)
parse_sound (key ∷ []) seen out h = ground arith
parse_sound (key ∷ value ∷ rest) seen out h = elim (Bool-cases (starts_with_dashes key)) [
  | inr bare ↦ ground arith
  | inl dashed ↦ elim (Bool-cases (is_some (find_option seen (drop 2 key)))) [
    | inl twice ↦ ground arith
    | inr new' ↦
        let (options, whole, spells, fresh) =
          parse_sound rest (seen ++ (drop 2 key, value) ∷ []) out (rw (dashed, new') at h) in
        (
          (drop 2 key, value) ∷ options,
          whole ∙ append_assoc seen ((drop 2 key, value) ∷ []) options,
          ap₂ (λ (k : List ℕ) (more : List (List ℕ)). k ∷ value ∷ more) (dashes key dashed) spells,
          (not_found (find_option seen (drop 2 key)) new', fresh),
        )
  ]
]

-- The parser returns some options exactly when the arguments spell them, in order, and no name is
-- given twice.
pub parse_options_iff :
    (arguments : List (List ℕ)) (options : Options)
    → (parse_options arguments ≡ ok options) ↔ ((arguments ≡ spelled options) × IsDistinct options)
unfolding parse_options
parse_options_iff arguments options = (sound, complete)
  where
    sound :
        parse_options arguments ≡ ok options → (arguments ≡ spelled options) × IsDistinct options
    sound h =
        let (found, whole, spells, fresh) = parse_sound arguments [] options h in
        (spells ∙ ap spelled (sym whole), subst IsDistinct (sym whole) fresh)

    complete :
        (arguments ≡ spelled options) × IsDistinct options → parse_options arguments ≡ ok options
    complete h = rw h.0 (parse_complete options [] h.1)
