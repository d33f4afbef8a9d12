-- ===== src/FatTable/Codec.antt =====
-- kernel/fs/fat/utils.c: `get_u16`, `get_u32`, `set_u16` and `set_u32` over a buffer of bytes.
use huge_pie.FatTable.{put, get_u16, get_u32, set_u16, set_u32}
use huge_pie.Base.{
  ℕ, ◌+◌, ◌*◌, ◌/◌, ◌%◌, ◌^◌, ◌≤◌, ◌<◌, ◌⊎◌, ◌≡◌, ◌≢◌, refl, sym, ◌∙◌, Option, some, List,
  get_elem?, length, ltb, arith, Returns, returns, bind, mono, true, length-set, get_elem?-set_self,
  get_elem?-set_ne,
}

-- One byte is written.
record Put (ch : List ℕ) (i byte : ℕ) (ch' : List ℕ) : Type 0 where
  same_length : length ch' ≡ length ch
  here : get_elem? ch' i ≡ some byte
  others : (j : ℕ) → j ≢ i → get_elem? ch' j ≡ get_elem? ch j

put-Put : (ch : List ℕ) (i byte : ℕ) → i < length ch → Returns (Put ch i byte) (put ch i byte)
unfolding put
put-Put ch i byte h =
    let t : ltb i (length ch) ≡ true = ground arith in
    rw t (
      returns (record {
        same_length = length-set ch i byte;
        here = get_elem?-set_self ch i byte h;
        others = λ j ne. get_elem?-set_ne ch i j byte (λ e. ne (sym e));
      }))

-- A number is written at the offset: it reads back, and the bytes around it are kept.
pub record Stored (get : List ℕ → ℕ → Option ℕ) (ch : List ℕ) (i size value : ℕ) (ch' : List ℕ)
    : Type 0 where
  pub same_length : length ch' ≡ length ch
  pub reads : get ch' i ≡ some value
  pub others : (j : ℕ) → (j < i) ⊎ (i + size ≤ j) → get_elem? ch' j ≡ get_elem? ch j

-- `set_u16` inside the buffer ends without a fault; `get_u16` then reads the number, and the other bytes are
-- kept, for a number below 2^16.
pub set_u16-get_u16 :
    (ch : List ℕ) (i num : ℕ)
    → i + 1 < length ch
    → num < 2 ^ 16
    → Returns (Stored get_u16 ch i 2 num) (set_u16 ch i num)
unfolding set_u16 get_u16
set_u16-get_u16 ch i num h small = bind (put-Put ch i (num % 256) (omega arith)) (λ a p.
    mono (put-Put a (i + 1) (num / 2 ^ 8 % 256) (omega (arith, p.same_length))) (λ b q. record {
      same_length = q.same_length ∙ p.same_length;
      reads =
          let e = q.others i (omega arith) ∙ p.here in
          let v : num % 256 + num / 2 ^ 8 % 256 * 2 ^ 8 ≡ num = omega arith in
          rw (e, q.here, v) refl;
      others = λ j out. q.others j (omega arith) ∙ p.others j (omega arith);
    }))

-- `set_u32` inside the buffer ends without a fault; `get_u32` then reads the number modulo 2^32, and the
-- other bytes are kept.
pub set_u32-get_u32 :
    (ch : List ℕ) (i num : ℕ)
    → i + 3 < length ch
    → Returns (Stored get_u32 ch i 4 (num % 2 ^ 32)) (set_u32 ch i num)
unfolding set_u32 get_u32
set_u32-get_u32 ch i num h = bind (put-Put ch i (num % 256) (omega arith)) (λ a p.
    bind (put-Put a (i + 1) (num / 2 ^ 8 % 256) (omega (arith, p.same_length))) (λ b q.
      bind (put-Put b (i + 2) (num / 2 ^ 16 % 256) (omega (arith, p.same_length, q.same_length)))
        (λ c r.
          mono
            (put-Put c (i + 3) (num / 2 ^ 24 % 256)
              (omega (arith, p.same_length, q.same_length, r.same_length)))
            (λ d s. record {
              same_length = s.same_length ∙ r.same_length ∙ q.same_length ∙ p.same_length;
              reads =
                  let e =
                    s.others i (omega arith)
                    ∙ r.others i (omega arith)
                    ∙ q.others i (omega arith)
                    ∙ p.here in
                  let f =
                    s.others (i + 1) (omega arith) ∙ r.others (i + 1) (omega arith) ∙ q.here in
                  let g = s.others (i + 2) (omega arith) ∙ r.here in
                  let v : num % 256
                        + num / 2 ^ 8 % 256 * 2 ^ 8
                        + num / 2 ^ 16 % 256 * 2 ^ 16
                        + num / 2 ^ 24 % 256 * 2 ^ 24
                      ≡ num % 2 ^ 32 =
                    omega arith in
                  rw (e, f, g, s.here, v) refl;
              others = λ j out.
                  s.others j (omega arith)
                  ∙ r.others j (omega arith)
                  ∙ q.others j (omega arith)
                  ∙ p.others j (omega arith);
            }))))
