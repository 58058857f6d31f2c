-- ===== src/Asm/Concat.antt =====
-- irida-ui/gui/src/theme/asm_tokenizer.cpp: the tokens of a line against the line.
use irida.Common.{
  Bool, Bool-cases, List, Text, [], ap, arith, false, if◌then◌else◌, inl, inr, length, refl, suc,
  true, zero, ℕ, ◌++◌, ◌∙◌, ◌∷◌, ◌≡◌, ◌≤◌,
}
use irida.Asm.{
  Token, CharClass, run_of, behind, is_brace, is_punctuation, is_word_char, next_token,
  tokenize_from, tokenize,
}

-- The texts of the tokens, one behind the other.
abbrev pub concat : List Token → Text
concat [] = []
concat (token ∷ tokens) = token.text ++ concat tokens

run_of-behind : (p : ℕ → Bool) (s : Text) → run_of p s ++ behind p s ≡ s
unfolding run_of behind
run_of-behind p [] = refl
run_of-behind p (c ∷ s) = elim (Bool-cases (p c)) [
  | inl e ↦ rw e (ap (λ t. c ∷ t) (run_of-behind p s))
  | inr e ↦ rw e refl
]

length-behind : (p : ℕ → Bool) (s : Text) → length (behind p s) ≤ length s
unfolding behind
length-behind p [] = omega arith
length-behind p (c ∷ s) = ground (arith, length-behind p s)

module _ (Q : CharClass) where
  -- A round splits what it is given in two, and leaves less.
  record Consumes (c : ℕ) (s : Text) (r : Token × Text × Bool) : Type 0 where
    split : r.0.text ++ r.1 ≡ c ∷ s
    shorter : length r.1 ≤ length s

  one_character :
      (c : ℕ) (s : Text) (token : Token) (seen : Bool)
      → token.text ≡ c ∷ []
      → Consumes c s (token, s, seen)
  one_character c s token seen e = record { split = rw e refl; shorter = omega arith }

  one_run :
      (p : ℕ → Bool) (c : ℕ) (s : Text) (token : Token) (seen : Bool)
      → p c ≡ true
      → token.text ≡ run_of p (c ∷ s)
      → Consumes c s (token, behind p (c ∷ s), seen)
  unfolding behind
  one_run p c s token seen h e = record {
    split = rw e (run_of-behind p (c ∷ s));
    shorter = rw h (length-behind p s);
  }

  either_branch :
      (c : ℕ) (s : Text) (b : Bool) {x y : Token × Text × Bool}
      → (b ≡ true → Consumes c s x)
      → (b ≡ false → Consumes c s y)
      → Consumes c s (if b then x else y)
  either_branch c s true h k = h refl
  either_branch c s false h k = k refl

  next_token-Consumes : (seen : Bool) (c : ℕ) (s : Text) → Consumes c s (next_token Q seen c s)
  unfolding next_token
  next_token-Consumes seen c s =
      either_branch c s (Q.is_space c) (λ e. one_run Q.is_space c s _ _ e refl)
        λ _.
          either_branch c s (is_brace c) (λ _. one_character c s _ _ refl)
            λ _.
              either_branch c s (is_punctuation c) (λ _. one_character c s _ _ refl)
                λ _.
                  either_branch c s (is_word_char Q c)
                    (λ e. one_run (is_word_char Q) c s _ _ e refl) λ _. one_character c s _ _ refl

  concat-tokenize_from :
      (fuel : ℕ) (seen : Bool) (s : Text)
      → length s ≤ fuel
      → concat (tokenize_from Q fuel seen s) ≡ s
  unfolding tokenize_from
  concat-tokenize_from zero seen [] h = refl
  concat-tokenize_from zero seen (c ∷ s) h = absurd (omega arith)
  concat-tokenize_from (suc fuel) seen [] h = refl
  concat-tokenize_from (suc fuel) seen (c ∷ s) h =
      let k = next_token-Consumes seen c s in
      let (token, rest, seen') = next_token Q seen c s in
      ap (λ t. token.text ++ t) (concat-tokenize_from fuel seen' rest (omega (arith, k.shorter)))
      ∙ k.split

  -- The texts of the tokens of a line, one behind the other, are the line, whatever the characters'
  -- classes are.
  pub concat-tokenize : (instruction : Text) → concat (tokenize Q instruction) ≡ instruction
  unfolding tokenize
  concat-tokenize instruction =
      concat-tokenize_from (length instruction) false instruction (omega arith)
