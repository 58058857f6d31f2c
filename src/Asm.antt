-- ===== src/Asm.antt =====
-- irida-ui/gui/src/theme/asm_tokenizer.cpp: a line of assembly split into typed tokens.
pub mod Concat
mod Tests
use irida.Common.{
  Bool, List, Text, [], codes, false, if◌then◌else◌, length, map, suc, text_eq, true, zero, ℕ, ◌&&◌,
  ◌==◌, ◌||◌, ◌∷◌,
}

pub data TokenKind : Type 0 where
  mnemonic register number brace punctuation whitespace text : TokenKind

pub record Token : Type 0 where
  pub text : Text
  pub kind : TokenKind

-- The character classes and the case mapping of `QChar` and `QString`.
pub record CharClass : Type 0 where
  pub is_space : ℕ → Bool
  pub is_letter_or_number : ℕ → Bool
  pub is_digit : ℕ → Bool
  pub to_lower : ℕ → ℕ

abbrev register_names : List Text
register_names = map codes (
    "rax" ∷ "rbx" ∷ "rcx" ∷ "rdx" ∷ "rsi" ∷ "rdi" ∷ "rbp" ∷ "rsp" ∷ "rip" ∷ "r8" ∷ "r9" ∷ "r10"
    ∷ "r11" ∷ "r12" ∷ "r13" ∷ "r14" ∷ "r15" ∷ "eax" ∷ "ebx" ∷ "ecx" ∷ "edx" ∷ "esi" ∷ "edi" ∷ "ebp"
    ∷ "esp" ∷ "r8d" ∷ "r9d" ∷ "ax" ∷ "bx" ∷ "cx" ∷ "dx" ∷ "al" ∷ "bl" ∷ "cl" ∷ "dl" ∷ "ah" ∷ "bh"
    ∷ "ch" ∷ "dh" ∷ "sil" ∷ "dil" ∷ "bpl" ∷ "spl" ∷ "xmm0" ∷ "xmm1" ∷ "xmm2" ∷ "xmm3" ∷ "xmm4"
    ∷ "xmm5" ∷ "xmm6" ∷ "xmm7" ∷ "cs" ∷ "ds" ∷ "es" ∷ "fs" ∷ "gs" ∷ "ss" ∷ [])

abbrev is_in : Text → List Text → Bool
is_in w [] = false
is_in w (x ∷ xs) = text_eq w x || is_in w xs

abbrev all_of : (ℕ → Bool) → Text → Bool
all_of p [] = true
all_of p (c ∷ s) = p c && all_of p s

-- The longest run of characters of a class, and what is behind it.
unfoldable pub run_of : (ℕ → Bool) → Text → Text
run_of p [] = []
run_of p (c ∷ s) = let rest = run_of p s in if p c then c ∷ rest else []

unfoldable pub behind : (ℕ → Bool) → Text → Text
behind p [] = []
behind p (c ∷ s) = let rest = behind p s in if p c then rest else c ∷ s

abbrev pub is_brace : ℕ → Bool
is_brace c = (c == b'[') || (c == b']')

abbrev pub is_punctuation : ℕ → Bool
is_punctuation c = (c == b',') || (c == b'+') || (c == b'*') || (c == b':') || (c == b'-')

module _ (Q : CharClass) where
  abbrev pub is_word_char : ℕ → Bool
  is_word_char c = Q.is_letter_or_number c || (c == b'_')

  abbrev starts_with_0x : Text → Bool
  starts_with_0x (a ∷ b ∷ s) = (a == b'0') && ((b == b'x') || (b == b'X'))
  starts_with_0x s = false

  unfoldable pub looks_like_number : Text → Bool
  looks_like_number [] = false
  looks_like_number (c ∷ s) = starts_with_0x (c ∷ s) || all_of Q.is_digit (c ∷ s)

  -- The kind of a word; the first one is the mnemonic.
  unfoldable pub word_kind : Bool → Text → TokenKind
  word_kind false w = mnemonic
  word_kind true w =
      if is_in (map Q.to_lower w) register_names
      then register
      else if looks_like_number w
      then number
      else text

  -- One round of the loop: the token, what is left, and whether the mnemonic has been seen.
  unfoldable pub next_token : Bool → ℕ → Text → Token × Text × Bool
  next_token seen c s =
      if Q.is_space c
      then (
        record { text = run_of Q.is_space (c ∷ s); kind = whitespace },
        behind Q.is_space (c ∷ s),
        seen,
      )
      else if is_brace c
      then (record { text = c ∷ []; kind = brace }, s, seen)
      else if is_punctuation c
      then (record { text = c ∷ []; kind = punctuation }, s, seen)
      else if is_word_char c
      then (
        record {
          text = run_of is_word_char (c ∷ s);
          kind = word_kind seen (run_of is_word_char (c ∷ s));
        },
        behind is_word_char (c ∷ s),
        true,
      )
      else (record { text = c ∷ []; kind = text }, s, seen)

  -- A round consumes a character at least, so as many rounds as characters are enough.
  unfoldable pub tokenize_from : ℕ → Bool → Text → List Token
  tokenize_from zero seen s = []
  tokenize_from (suc fuel) seen [] = []
  tokenize_from (suc fuel) seen (c ∷ s) =
      let (token, rest, seen') = next_token seen c s in token ∷ tokenize_from fuel seen' rest

  unfoldable pub tokenize : Text → List Token
  tokenize instruction = tokenize_from (length instruction) false instruction
