-- ===== src/Cli/WalletFile.antt =====
-- What `write_private_wallet_file` of native/src/main.cpp leaves at its path.
use tron_wallet_searcher.Common.{
  ℕ, zero, suc, ◌+◌, ◌≤◌, ◌≡◌, refl, sym, ap, ◌∙◌, ◌⊎◌, inl, inr, List, [], ◌∷◌, ◌++◌, false, ◌==◌,
  ltb, Bool, if◌then◌else◌, Option-cases, subst, text, length, take, drop, none, some, Result, ok,
  err, Exception, ◌>>◌, arith, Bool-cases,
}
use tron_wallet_searcher.Cli.{
  WriteAnswer, wrote, interrupted, write_error, SystemAnswers, FileOutcome, throw_file_error,
  Written, write_loop, check_call, settle, write_private_wallet_file,
}

nothing_left : (n m : ℕ) → take {A = ℕ} n [] ≡ take m []
nothing_left zero zero = refl
nothing_left zero (suc m) = refl
nothing_left (suc n) zero = refl
nothing_left (suc n) (suc m) = refl

take-further : (n k : ℕ) (xs : List ℕ) → take n xs ++ take k (drop n xs) ≡ take (n + k) xs
take-further zero k xs = ap (λ m. take m xs) (omega arith)
take-further (suc n) k [] = nothing_left k (suc n + k)
take-further (suc n) k (x ∷ xs) =
    let e : suc n + k ≡ suc (n + k) = omega arith in rw e (ap (◌∷◌ x) (take-further n k xs))

take-past : (n : ℕ) (xs : List ℕ) → length xs ≤ n → take n xs ≡ xs
take-past zero [] h = refl
take-past zero (x ∷ xs) h = absurd (omega arith)
take-past (suc n) [] h = refl
take-past (suc n) (x ∷ xs) h = ap (◌∷◌ x) (take-past n xs (omega arith))

some_injective {ℓ} : {A : Type ℓ} {a b : A} → some a ≡ some b → a ≡ b
some_injective h = ground arith

ended :
    (position : ℕ) (bytes contents : List ℕ) (written : Written)
    → bytes ≡ take position contents
    → some (record { result = ok tt; bytes = bytes }) ≡ some written
    → ltb position (length contents) ≡ false
    → written.bytes ≡ contents
ended position bytes contents written e h done =
    let all : length contents ≤ position = ground arith in
    sym (ap (λ (w : Written). w.bytes) (some_injective h)) ∙ e ∙ take-past position contents all

failed_well :
    (thrown : Exception) (bytes : List ℕ) {contents : List ℕ} (written : Written)
    → some (record { result = err thrown; bytes = bytes }) ≡ some written
    → written.result ≡ ok tt
    → written.bytes ≡ contents
failed_well thrown bytes written h good =
    let bad = ap (λ (w : Written). w.result) (some_injective h) in ground (arith, bad)

-- Where the loop ends well, the file has all of the contents.
write_loop-whole :
    (path io_error : List ℕ) (answers : List WriteAnswer) (contents : List ℕ) (position : ℕ)
    (bytes : List ℕ)
    → (written : Written) → bytes ≡ take position contents
    → write_loop path io_error answers contents position bytes ≡ some written
    → written.result ≡ ok tt
    → written.bytes ≡ contents
unfolding write_loop throw_file_error
write_loop-whole path io_error [] contents position bytes written e h good =
    elim (Bool-cases (ltb position (length contents))) [
      | inl more ↦ ground arith
      | inr done ↦ ended position bytes contents written e (rw (write_loop, done) at h) done
    ]
write_loop-whole path io_error (interrupted ∷ answers) contents position bytes written e h good =
    elim (Bool-cases (ltb position (length contents))) [
      | inl more ↦
          write_loop-whole path io_error answers contents position bytes written e
            (rw (write_loop, more) at h) good
      | inr done ↦ ended position bytes contents written e (rw (write_loop, done) at h) done
    ]
write_loop-whole path io_error (write_error error ∷ answers) contents position bytes written e h
      good =
    elim (Bool-cases (ltb position (length contents))) [
      | inl more ↦ failed_well _ bytes written (rw (write_loop, more) at h) good
      | inr done ↦ ended position bytes contents written e (rw (write_loop, done) at h) done
    ]
write_loop-whole path io_error (wrote count ∷ answers) contents position bytes written e h good =
    elim (Bool-cases (ltb position (length contents))) [
      | inl more ↦
          let h' = rw (write_loop, more) at h in
          elim (Bool-cases (count == 0)) [
            | inl none_written ↦ failed_well _ bytes written (rw none_written at h') good
            | inr progress ↦
                write_loop-whole path io_error answers contents (position + count)
                  (bytes ++ take count (drop position contents)) written
                  (ap (λ b. b ++ take count (drop position contents)) e
                    ∙ take-further position count contents)
                  (rw progress at h') good
          ]
      | inr done ↦ ended position bytes contents written e (rw (write_loop, done) at h) done
    ]

kept :
    (position : ℕ) (bytes contents : List ℕ) (result : Result (Unit {0})) (written : Written)
    → bytes ≡ take position contents
    → some (record { result = result; bytes = bytes }) ≡ some written
    → (k : ℕ) × (written.bytes ≡ take k contents)
kept position bytes contents result written e h =
    (position, sym (ap (λ (w : Written). w.bytes) (some_injective h)) ∙ e)

-- However the loop ends, the file has the first bytes of the contents.
write_loop-front :
    (path io_error : List ℕ) (answers : List WriteAnswer) (contents : List ℕ) (position : ℕ)
    (bytes : List ℕ)
    → (written : Written) → bytes ≡ take position contents
    → write_loop path io_error answers contents position bytes ≡ some written
    → (k : ℕ) × (written.bytes ≡ take k contents)
unfolding write_loop throw_file_error
write_loop-front path io_error [] contents position bytes written e h =
    elim (Bool-cases (ltb position (length contents))) [
      | inl more ↦ ground arith
      | inr done ↦ kept position bytes contents _ written e (rw (write_loop, done) at h)
    ]
write_loop-front path io_error (interrupted ∷ answers) contents position bytes written e h =
    elim (Bool-cases (ltb position (length contents))) [
      | inl more ↦
          write_loop-front path io_error answers contents position bytes written e
            (rw (write_loop, more) at h)
      | inr done ↦ kept position bytes contents _ written e (rw (write_loop, done) at h)
    ]
write_loop-front path io_error (write_error error ∷ answers) contents position bytes written e h =
    elim (Bool-cases (ltb position (length contents))) [
      | inl more ↦ kept position bytes contents _ written e (rw (write_loop, more) at h)
      | inr done ↦ kept position bytes contents _ written e (rw (write_loop, done) at h)
    ]
write_loop-front path io_error (wrote count ∷ answers) contents position bytes written e h =
    elim (Bool-cases (ltb position (length contents))) [
      | inl more ↦
          let h' = rw (write_loop, more) at h in
          elim (Bool-cases (count == 0)) [
            | inl none_written ↦ kept position bytes contents _ written e (rw none_written at h')
            | inr progress ↦
                write_loop-front path io_error answers contents (position + count)
                  (bytes ++ take count (drop position contents)) written
                  (ap (λ b. b ++ take count (drop position contents)) e
                    ∙ take-further position count contents)
                  (rw progress at h')
          ]
      | inr done ↦ kept position bytes contents _ written e (rw (write_loop, done) at h)
    ]

-- What is at the path: the whole contents after a success; after an exception no file, or, where
-- `unlink` fails, the first bytes of the contents.
abbrev pub Whole : SystemAnswers → List ℕ → FileOutcome → Type 0
Whole system contents outcome =
    ((outcome.result ≡ ok tt) × (outcome.file ≡ some contents))
    ⊎ ((thrown : Exception) × (outcome.result ≡ err thrown)
        × ((outcome.file ≡ none)
            ⊎ ((system.unlinks ≡ false) × ((k : ℕ) × (outcome.file ≡ some (take k contents))))))

after_unlink :
    (system : SystemAnswers) (contents bytes : List ℕ) (thrown : Exception)
    → ((k : ℕ) × (bytes ≡ take k contents))
    → Whole system contents (settle system.unlinks (err thrown) bytes)
unfolding settle
after_unlink system contents bytes thrown (k, e) = elim (Bool-cases system.unlinks) [
  | inl removed ↦
      inr (thrown, refl, inl (ap (λ (b : Bool). if b then none else some bytes) removed))
  | inr stays ↦ inr (
    thrown,
    refl,
    inr (stays, (k, ap (λ (b : Bool). if b then none else some bytes) stays ∙ ap some e)),
  )
]

-- What the rest of the function makes of the loop's end.
settled :
    (system : SystemAnswers) (contents : List ℕ) (written : Written)
    (synced closed : Result (Unit {0}))
    → (written.result ≡ ok tt → written.bytes ≡ contents)
    → ((k : ℕ) × (written.bytes ≡ take k contents))
    → Whole system contents
        (settle system.unlinks (written.result >> synced >> closed) written.bytes)
settled system contents written synced closed whole front = go written.result synced closed whole
  where
    go :
        (first second third : Result (Unit {0}))
        → (first ≡ ok tt → written.bytes ≡ contents)
        → Whole system contents (settle system.unlinks (first >> second >> third) written.bytes)
    go (err thrown) second third h = after_unlink system contents written.bytes thrown front
    go (ok u) (err thrown) third h = after_unlink system contents written.bytes thrown front
    go (ok u) (ok v) (err thrown) h = after_unlink system contents written.bytes thrown front
    go (ok u) (ok v) (ok w) h = unfold settle in inl (refl, ap some (h refl))

write_private_wallet_file-Whole :
    (io_error : List ℕ) (system : SystemAnswers) (path contents : List ℕ) (outcome : FileOutcome)
    → write_private_wallet_file io_error system path contents none ≡ some outcome
    → Whole system contents outcome
unfolding write_private_wallet_file throw_file_error
write_private_wallet_file-Whole io_error system path contents outcome h =
    elim (Option-cases system.open_error) [
      | inr (error, refused) ↦
          let same = some_injective (simp (write_private_wallet_file, refused) at h) in
          inr (
            _,
            sym (ap (λ (o : FileOutcome). o.result) same),
            inl (sym (ap (λ (o : FileOutcome). o.file) same)),
          )
      | inl opened ↦ elim (Option-cases (write_loop path io_error system.writes contents 0 [])) [
        | inl waiting ↦ ground (arith, simp (write_private_wallet_file, opened, waiting) at h)
        | inr (written, ends) ↦
            let same = some_injective (simp (write_private_wallet_file, opened, ends) at h) in
            subst (Whole system contents) same (
              settled system contents written
                (check_call (text "Could not synchronize wallet file") path system.fsync_error)
                (check_call (text "Could not close wallet file") path system.close_error)
                (write_loop-whole path io_error system.writes contents 0 [] written refl ends)
                (write_loop-front path io_error system.writes contents 0 [] written refl ends))
      ]
    ]

-- The answers other than EINTR.
unfoldable pub count_answers : List WriteAnswer → ℕ
count_answers [] = 0
count_answers (interrupted ∷ answers) = count_answers answers
count_answers (wrote count ∷ answers) = suc (count_answers answers)
count_answers (write_error error ∷ answers) = suc (count_answers answers)

write_loop-ends :
    (path io_error : List ℕ) (answers : List WriteAnswer) (contents : List ℕ) (position : ℕ)
    (bytes : List ℕ)
    → length contents ≤ position + count_answers answers
    → (written : Written) × (write_loop path io_error answers contents position bytes
        ≡ some written)
unfolding write_loop count_answers
write_loop-ends path io_error [] contents position bytes enough =
    let done : ltb position (length contents) ≡ false = ground arith in
    (record { result = ok tt; bytes = bytes }, rw (write_loop, done) refl)
write_loop-ends path io_error (interrupted ∷ answers) contents position bytes enough =
    elim (Bool-cases (ltb position (length contents))) [
      | inl more ↦
          rw (write_loop, more)
            (write_loop-ends path io_error answers contents position bytes enough)
      | inr done ↦ (record { result = ok tt; bytes = bytes }, rw (write_loop, done) refl)
    ]
write_loop-ends path io_error (write_error error ∷ answers) contents position bytes enough =
    elim (Bool-cases (ltb position (length contents))) [
      | inl more ↦ (
        record {
          result = throw_file_error (text "Could not write wallet file") path error;
          bytes = bytes;
        },
        rw (write_loop, more) refl,
      )
      | inr done ↦ (record { result = ok tt; bytes = bytes }, rw (write_loop, done) refl)
    ]
write_loop-ends path io_error (wrote count ∷ answers) contents position bytes enough =
    elim (Bool-cases (ltb position (length contents))) [
      | inl more ↦ elim (Bool-cases (count == 0)) [
        | inl none_written ↦ (
          record {
            result = throw_file_error (text "Could not write wallet file") path io_error;
            bytes = bytes;
          },
          rw (write_loop, more, none_written) refl,
        )
        | inr progress ↦
            let step =
              write_loop-ends path io_error answers contents (position + count)
                (bytes ++ take count (drop position contents)) (ground arith) in
            rw (write_loop, more, progress) step
      ]
      | inr done ↦ (record { result = ok tt; bytes = bytes }, rw (write_loop, done) refl)
    ]

returns_outcome :
    (io_error : List ℕ) (system : SystemAnswers) (path contents : List ℕ)
    → length contents ≤ count_answers system.writes
    → (outcome : FileOutcome) × (write_private_wallet_file io_error system path contents none
        ≡ some outcome)
unfolding write_private_wallet_file
returns_outcome io_error system path contents enough = elim (Option-cases system.open_error) [
  | inr (error, refused) ↦ (
    record {
      result = throw_file_error (text "Could not create wallet file") path error;
      file = none;
    },
    simp (write_private_wallet_file, refused) refl,
  )
  | inl opened ↦
      let (written, ends) =
        write_loop-ends path io_error system.writes contents 0 [] (omega arith) in
      (
        settle system.unlinks
            (written.result
              >> check_call (text "Could not synchronize wallet file") path system.fsync_error
              >> check_call (text "Could not close wallet file") path system.close_error)
            written.bytes,
        simp (write_private_wallet_file, opened, ends) refl,
      )
]

-- For a path where no file is, and where the system gives at least as many answers other than EINTR
-- as the contents have bytes, the call ends: without an exception, and the file has the whole
-- contents, or with one, and there is no file or, where `unlink` fails, one with the first bytes of
-- the contents.
pub write_private_wallet_file-ends :
    (io_error : List ℕ) (system : SystemAnswers) (path contents : List ℕ)
    → length contents ≤ count_answers system.writes
    → (outcome : FileOutcome) × (write_private_wallet_file io_error system path contents none
        ≡ some outcome)
      × Whole system contents outcome
write_private_wallet_file-ends io_error system path contents enough =
    let (outcome, returns) = returns_outcome io_error system path contents enough in
    (
      outcome,
      returns,
      write_private_wallet_file-Whole io_error system path contents outcome returns,
    )
