-- ===== src/Asm/Tests.antt =====
-- The tokenizer on a line of assembly.
use irida.Common.{codes, if◌then◌else◌, leb, ℕ, ◌&&◌, ◌+◌, ◌==◌, ◌||◌, ◌≡◌}
use irida.Asm.{CharClass, tokenize}
use irida.Asm.Concat.{concat, concat-tokenize}

abbrev lower_ascii : ℕ → ℕ
lower_ascii c = if leb b'A' c && leb c b'Z' then c + 32 else c

abbrev ascii : CharClass
ascii = record {
  is_space = λ c. c == b' ';
  is_letter_or_number = λ c. (leb b'a' c && leb c b'z') || (leb b'0' c && leb c b'9');
  is_digit = λ c. leb b'0' c && leb c b'9';
  to_lower = lower_ascii;
}

concat-tokenize_example :
    concat (tokenize ascii (codes "mov rcx, [rax+8]")) ≡ codes "mov rcx, [rax+8]"
concat-tokenize_example = concat-tokenize ascii (codes "mov rcx, [rax+8]")
