-- ===== src/Windows/Context/RoundTrip.antt =====
-- The register block of irida-core/libs/host/src/native_debuggee.cpp: writing a block that was read.
use irida.Common.{ap, arith, refl, ℕ, ◌%◌, ◌<◌, ◌^◌, ◌∙◌, ◌≡◌}
use irida.Target.RegisterSet.{decode_le, decode_le_from}
use irida.Backend.Native.{le_bytes, write_rip}
use irida.Windows.{ThreadContext}
use irida.Windows.Context.{put_slot, put_slots, get_slot, context_to_block, block_to_context}

-- Every register fits its width.
pub record Fits (ctx : ThreadContext) : Type 0 where
  pub rax : ctx.rax < 2 ^ 64
  pub rbx : ctx.rbx < 2 ^ 64
  pub rcx : ctx.rcx < 2 ^ 64
  pub rdx : ctx.rdx < 2 ^ 64
  pub rsi : ctx.rsi < 2 ^ 64
  pub rdi : ctx.rdi < 2 ^ 64
  pub rbp : ctx.rbp < 2 ^ 64
  pub rsp : ctx.rsp < 2 ^ 64
  pub r8 : ctx.r8 < 2 ^ 64
  pub r9 : ctx.r9 < 2 ^ 64
  pub r10 : ctx.r10 < 2 ^ 64
  pub r11 : ctx.r11 < 2 ^ 64
  pub r12 : ctx.r12 < 2 ^ 64
  pub r13 : ctx.r13 < 2 ^ 64
  pub r14 : ctx.r14 < 2 ^ 64
  pub r15 : ctx.r15 < 2 ^ 64
  pub rip : ctx.rip < 2 ^ 64
  pub eflags : ctx.eflags < 2 ^ 32
  pub seg_cs : ctx.seg_cs < 2 ^ 16
  pub seg_ss : ctx.seg_ss < 2 ^ 16
  pub seg_ds : ctx.seg_ds < 2 ^ 16
  pub seg_es : ctx.seg_es < 2 ^ 16
  pub seg_fs : ctx.seg_fs < 2 ^ 16
  pub seg_gs : ctx.seg_gs < 2 ^ 16
  pub dr0 : ctx.dr0 < 2 ^ 64
  pub dr1 : ctx.dr1 < 2 ^ 64
  pub dr2 : ctx.dr2 < 2 ^ 64
  pub dr3 : ctx.dr3 < 2 ^ 64
  pub dr6 : ctx.dr6 < 2 ^ 64
  pub dr7 : ctx.dr7 < 2 ^ 64

pub record SameRegisters (c d : ThreadContext) : Type 0 where
  pub rax : d.rax ≡ c.rax
  pub rbx : d.rbx ≡ c.rbx
  pub rcx : d.rcx ≡ c.rcx
  pub rdx : d.rdx ≡ c.rdx
  pub rsi : d.rsi ≡ c.rsi
  pub rdi : d.rdi ≡ c.rdi
  pub rbp : d.rbp ≡ c.rbp
  pub rsp : d.rsp ≡ c.rsp
  pub r8 : d.r8 ≡ c.r8
  pub r9 : d.r9 ≡ c.r9
  pub r10 : d.r10 ≡ c.r10
  pub r11 : d.r11 ≡ c.r11
  pub r12 : d.r12 ≡ c.r12
  pub r13 : d.r13 ≡ c.r13
  pub r14 : d.r14 ≡ c.r14
  pub r15 : d.r15 ≡ c.r15
  pub rip : d.rip ≡ c.rip
  pub eflags : d.eflags ≡ c.eflags
  pub seg_cs : d.seg_cs ≡ c.seg_cs
  pub seg_ss : d.seg_ss ≡ c.seg_ss
  pub seg_ds : d.seg_ds ≡ c.seg_ds
  pub seg_es : d.seg_es ≡ c.seg_es
  pub seg_fs : d.seg_fs ≡ c.seg_fs
  pub seg_gs : d.seg_gs ≡ c.seg_gs
  pub dr0 : d.dr0 ≡ c.dr0
  pub dr1 : d.dr1 ≡ c.dr1
  pub dr2 : d.dr2 ≡ c.dr2
  pub dr3 : d.dr3 ≡ c.dr3
  pub dr6 : d.dr6 ≡ c.dr6
  pub dr7 : d.dr7 ≡ c.dr7

decode_le-le_bytes : (v : ℕ) → v < 2 ^ 64 → decode_le (le_bytes 8 v) ≡ v
unfolding decode_le decode_le_from le_bytes
decode_le-le_bytes v h = omega arith

-- A block that was made of one context and is written over another gives the other the registers of
-- the first, and leaves what the block does not carry.
pub block_to_context-context_to_block :
    (ctx over : ThreadContext)
    → Fits ctx
    → SameRegisters ctx (block_to_context (context_to_block ctx) over)
      × ((block_to_context (context_to_block ctx) over).unlisted ≡ over.unlisted)
unfolding block_to_context context_to_block put_slots put_slot get_slot le_bytes
block_to_context-context_to_block ctx over h = (
  record {
    rax = decode_le-le_bytes ctx.rax h.rax;
    rbx = decode_le-le_bytes ctx.rbx h.rbx;
    rcx = decode_le-le_bytes ctx.rcx h.rcx;
    rdx = decode_le-le_bytes ctx.rdx h.rdx;
    rsi = decode_le-le_bytes ctx.rsi h.rsi;
    rdi = decode_le-le_bytes ctx.rdi h.rdi;
    rbp = decode_le-le_bytes ctx.rbp h.rbp;
    rsp = decode_le-le_bytes ctx.rsp h.rsp;
    r8 = decode_le-le_bytes ctx.r8 h.r8;
    r9 = decode_le-le_bytes ctx.r9 h.r9;
    r10 = decode_le-le_bytes ctx.r10 h.r10;
    r11 = decode_le-le_bytes ctx.r11 h.r11;
    r12 = decode_le-le_bytes ctx.r12 h.r12;
    r13 = decode_le-le_bytes ctx.r13 h.r13;
    r14 = decode_le-le_bytes ctx.r14 h.r14;
    r15 = decode_le-le_bytes ctx.r15 h.r15;
    rip = decode_le-le_bytes ctx.rip h.rip;
    eflags =
        ap (λ v. v % 2 ^ 32) (decode_le-le_bytes ctx.eflags (omega (arith, h.eflags)))
        ∙ omega (arith, h.eflags);
    seg_cs =
        ap (λ v. v % 2 ^ 16) (decode_le-le_bytes ctx.seg_cs (omega (arith, h.seg_cs)))
        ∙ omega (arith, h.seg_cs);
    seg_ss =
        ap (λ v. v % 2 ^ 16) (decode_le-le_bytes ctx.seg_ss (omega (arith, h.seg_ss)))
        ∙ omega (arith, h.seg_ss);
    seg_ds =
        ap (λ v. v % 2 ^ 16) (decode_le-le_bytes ctx.seg_ds (omega (arith, h.seg_ds)))
        ∙ omega (arith, h.seg_ds);
    seg_es =
        ap (λ v. v % 2 ^ 16) (decode_le-le_bytes ctx.seg_es (omega (arith, h.seg_es)))
        ∙ omega (arith, h.seg_es);
    seg_fs =
        ap (λ v. v % 2 ^ 16) (decode_le-le_bytes ctx.seg_fs (omega (arith, h.seg_fs)))
        ∙ omega (arith, h.seg_fs);
    seg_gs =
        ap (λ v. v % 2 ^ 16) (decode_le-le_bytes ctx.seg_gs (omega (arith, h.seg_gs)))
        ∙ omega (arith, h.seg_gs);
    dr0 = decode_le-le_bytes ctx.dr0 h.dr0;
    dr1 = decode_le-le_bytes ctx.dr1 h.dr1;
    dr2 = decode_le-le_bytes ctx.dr2 h.dr2;
    dr3 = decode_le-le_bytes ctx.dr3 h.dr3;
    dr6 = decode_le-le_bytes ctx.dr6 h.dr6;
    dr7 = decode_le-le_bytes ctx.dr7 h.dr7;
  },
  refl,
)

-- The native backend's `write_rip` changes, in a block that was made of a context, what the
-- instruction pointer of the context changes.
pub write_rip-context_to_block :
    (ctx : ThreadContext) (rip : ℕ)
    → write_rip (context_to_block ctx) rip ≡ context_to_block (record ctx { rip = rip })
unfolding write_rip context_to_block put_slots put_slot le_bytes
write_rip-context_to_block ctx rip = refl
