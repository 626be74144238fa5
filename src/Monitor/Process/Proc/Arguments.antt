-- ===== src/Monitor/Process/Proc/Arguments.antt =====
-- `parse_cmdline` of src/monitor/process.rs, by indices, against the command line cut at its zeros.
use mathlib.Core.List.{append-nil, append_assoc}
use palingenesis.Prelude.{
  ℕ, suc, ◌+◌, ◌-◌, ◌≡◌, ◌∙◌, refl, sym, ap, arith, true, false, List, [], ◌∷◌, ◌++◌, ltb, ◌==◌,
  length, length-append, take, drop, Bool-cases, inl, inr, if◌then◌else◌,
}
use palingenesis.Prelude.Text.{Text, is_empty}
use palingenesis.Monitor.Process.Proc.{Bytes, Outside, push, slice, parse_from, parse_cmdline}

drop-append : (before rest : Bytes) → drop (length before) (before ++ rest) ≡ rest
drop-append [] rest = refl
drop-append (b ∷ before) rest = drop-append before rest

take-append : (word rest : Bytes) → take (length word) (word ++ rest) ≡ word
take-append [] rest = refl
take-append (b ∷ word) rest = ap (◌∷◌ b) (take-append word rest)

-- A step over one byte.
step_bytes :
    (before word rest : Bytes) (byte : ℕ)
    → before ++ (word ++ byte ∷ rest) ≡ before ++ ((word ++ byte ∷ []) ++ rest)
step_bytes before word rest byte = ap (λ b. before ++ b) (sym (append_assoc word (byte ∷ []) rest))

module _ (out : Outside) where
  -- The words of the bytes behind `word`, the part of a word that is read already: a zero ends a
  -- word, and a word that is empty is left out.
  unfoldable pub arguments : (word rest : Bytes) → List Text
  arguments word [] = if is_empty word then [] else push out word []
  arguments word (byte ∷ rest) = elim (byte == 0) [
    | false ↦ arguments (word ++ byte ∷ []) rest
    | true ↦ (if is_empty word then [] else push out word []) ++ arguments [] rest
  ]

  slice_word :
      (before word rest : Bytes)
      → slice out (before ++ (word ++ rest)) (length before) (length before + length word) ≡ word
  slice_word before word rest =
      let size : (length before + length word) - length before ≡ length word = omega arith in
      ap (λ n. take n (drop (length before) (before ++ (word ++ rest)))) size
      ∙ ap (take (length word)) (drop-append before (word ++ rest))
      ∙ take-append word rest

  push_args : (word : Bytes) (args : List Text) → push out word args ≡ args ++ push out word []
  push_args word args = elim (Bool-cases (is_empty (out.lossy word))) [
    | inl h ↦ rw h (sym (append-nil args))
    | inr h ↦ rw h refl
  ]

  -- A word that ends is pushed unless it is empty.
  abbrev pushed : Bytes → List Text
  pushed word = if is_empty word then [] else push out word []

  flush :
      (start : ℕ) (word : Bytes) (args : List Text)
      → (if ltb start (start + length word) then push out word args else args) ≡ args ++ pushed word
  flush start [] args =
      let same : ltb start (start + 0) ≡ false = ground arith in rw same (sym (append-nil args))
  flush start (b ∷ word) args =
      let longer : ltb start (start + suc (length word)) ≡ true = ground arith in
      rw longer (push_args (b ∷ word) args)

  -- The indices of the code find the words of the command line.
  parse_from-arguments :
      (before word rest : Bytes) (args : List Text)
      → parse_from out
          (before ++ (word ++ rest))
          rest
          (length before + length word)
          (length before)
          args
        ≡ args ++ arguments word rest
  unfolding parse_from arguments
  parse_from-arguments before word [] args =
      let bytes = before ++ (word ++ []) in
      let whole : drop (length before) bytes ≡ word =
        drop-append before (word ++ []) ∙ append-nil word in
      let size : length bytes ≡ length before + length word =
        length-append before (word ++ []) ∙ ap (λ w. length before + length w) (append-nil word) in
      ap (λ n. if ltb (length before) n then push out (drop (length before) bytes) args else args)
        size
      ∙ ap
          (λ w. if ltb (length before) (length before + length word) then push out w args else args)
          whole
      ∙ flush (length before) word args
  parse_from-arguments before word (byte ∷ rest) args =
      let i = length before + length word in
      let bytes = before ++ (word ++ byte ∷ rest) in
      let after = before ++ (word ++ byte ∷ []) in
      let size : length (word ++ byte ∷ []) ≡ suc (length word) =
        length-append word (byte ∷ []) ∙ (omega arith) in
      elim (Bool-cases (byte == 0)) [
        | inr other ↦
            let step : parse_from out bytes (byte ∷ rest) i (length before) args
                ≡ parse_from out bytes rest (suc i) (length before) args =
              rw (parse_from, other) refl in
            let word_step : arguments (word ++ byte ∷ []) rest ≡ arguments word (byte ∷ rest) =
              rw (arguments, other) refl in
            let next : suc i ≡ length before + length (word ++ byte ∷ []) = omega (arith, size) in
            step
            ∙ ap (λ b. parse_from out b rest (suc i) (length before) args)
                (step_bytes before word rest byte)
            ∙ ap
                (λ n.
                  parse_from out (before ++ ((word ++ byte ∷ []) ++ rest)) rest n (length before)
                    args)
                next
            ∙ parse_from-arguments before (word ++ byte ∷ []) rest args
            ∙ ap (λ l. args ++ l) word_step
        | inl zero_byte ↦
            let read =
              if ltb (length before) i
              then push out (slice out bytes (length before) i) args
              else args in
            let step : parse_from out bytes (byte ∷ rest) i (length before) args
                ≡ parse_from out bytes rest (suc i) (suc i) read =
              rw (parse_from, zero_byte) refl in
            let word_step : pushed word ++ arguments [] rest ≡ arguments word (byte ∷ rest) =
              rw (arguments, zero_byte) refl in
            let read_word : read ≡ args ++ pushed word =
              ap (λ w. if ltb (length before) i then push out w args else args)
                (slice_word before word (byte ∷ rest))
              ∙ flush (length before) word args in
            let split_here : bytes ≡ after ++ rest =
              step_bytes before word rest byte
              ∙ sym (append_assoc before (word ++ byte ∷ []) rest) in
            let start : suc i ≡ length after =
              omega (arith, length-append before (word ++ byte ∷ []), size) in
            let next : suc i ≡ length after + 0 = omega (arith, start) in
            step
            ∙ ap (parse_from out bytes rest (suc i) (suc i)) read_word
            ∙ ap (λ b. parse_from out b rest (suc i) (suc i) (args ++ pushed word)) split_here
            ∙ ap (λ n. parse_from out (after ++ rest) rest n (suc i) (args ++ pushed word)) next
            ∙ ap
                (λ n.
                  parse_from out (after ++ rest) rest (length after + 0) n (args ++ pushed word))
                start
            ∙ parse_from-arguments after [] rest (args ++ pushed word)
            ∙ append_assoc args (pushed word) (arguments [] rest)
            ∙ ap (λ l. args ++ l) word_step
      ]

  -- The command line is cut at its zero bytes, and the words that are empty are left out.
  pub parse_cmdline-arguments : (bytes : Bytes) → parse_cmdline out bytes ≡ arguments [] bytes
  unfolding parse_cmdline
  parse_cmdline-arguments bytes = parse_from-arguments [] [] bytes []
