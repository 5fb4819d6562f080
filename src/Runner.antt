-- ===== src/Runner.antt =====
-- internal/runner/exec.go: the buffer that a command writes its output to. Its mutex makes each
-- call one step. Its one limit is 64 KiB; with a limit below the length of the marker `Write` would
-- panic, and the model's subtraction stops at 0.
use mathlib.Core.List.{append-nil, append_assoc}
use cf_herdr_poc.Base.{
  ℕ, zero, suc, ◌+◌, ◌-◌, ◌*◌, ◌≤◌, ◌<◌, Bytes, codes, Bool, true, false, ◌||◌, ◌≡◌, refl, sym, ap,
  ◌∙◌, ◌⊎◌, inl, inr, List, [], ◌∷◌, ◌++◌, arith, length, drop, length-append, length-drop, ltb,
  Bool-cases, if◌then◌else◌,
}

abbrev pub truncation_marker : Bytes
truncation_marker = codes "[older command output truncated]\n"

abbrev pub max_output_bytes : ℕ
max_output_bytes = 64 * 1024

-- `cappedBuffer`.
pub record Buffer : Type 0 where
  pub content : Bytes
  pub limit : ℕ
  pub truncated : Bool

unfoldable pub new_buffer : ℕ → Buffer
new_buffer limit = record { content = []; limit = limit; truncated = false }

unfoldable pub write : Bytes → Buffer → Buffer
write value b =
    let content = b.content ++ value in
    let truncated = b.truncated || ltb b.limit (length content) in
    let keep = if truncated then b.limit - length truncation_marker else b.limit in
    record b {
      content = if ltb keep (length content) then drop (length content - keep) content else content;
      truncated = truncated;
    }

unfoldable pub output : Buffer → Bytes
output b = if b.truncated then truncation_marker ++ b.content else b.content

-- The writes of a command, in order.
unfoldable pub write_all : List Bytes → Buffer → Buffer
unfolding write
write_all [] b = b
write_all (v ∷ vs) b = write_all vs (write v b)

abbrev pub concat : List Bytes → Bytes
concat [] = []
concat (v ∷ vs) = v ++ concat vs

-- The last `n` bytes.
abbrev pub last : ℕ → Bytes → Bytes
last n s = drop (length s - n) s

drop-append_le : (n : ℕ) (s t : Bytes) → n ≤ length s → drop n (s ++ t) ≡ drop n s ++ t
drop-append_le zero s t h = refl
drop-append_le (suc n) [] t h = absurd (omega arith)
drop-append_le (suc n) (a ∷ s) t h = drop-append_le n s t (omega arith)

drop_nil : (n : ℕ) → drop {A = ℕ} n [] ≡ []
drop_nil zero = refl
drop_nil (suc n) = refl

suc_add : (n m : ℕ) → suc (n + m) ≡ suc n + m
suc_add n m = omega arith

drop-drop : (m n : ℕ) (s : Bytes) → drop m (drop n s) ≡ drop (n + m) s
drop-drop m zero s = ap (λ i. drop i s) (omega arith)
drop-drop m (suc n) [] = drop_nil m ∙ sym (drop_nil (suc n + m))
drop-drop m (suc n) (a ∷ s) = drop-drop m n s ∙ ap (λ i. drop i (a ∷ s)) (suc_add n m)

last-last : (k : ℕ) (s t : Bytes) → k ≤ length s → last k (last k s ++ t) ≡ last k (s ++ t)
last-last k s t h =
    let n = length s - k in
    let m = length t in
    ap (λ i. drop i (last k s ++ t)) (omega (arith, length-append (last k s) t, length-drop n s))
    ∙ ap (drop m) (sym (drop-append_le n s t (omega arith)))
    ∙ drop-drop m n (s ++ t)
    ∙ ap (λ i. drop i (s ++ t)) (omega (arith, length-append s t))

small : (k : ℕ) (s : Bytes) → length s ≤ k → 0 ≡ length s - k
small k s h = omega arith

-- `drop` or not, as `Write` does it.
trim-last : (k : ℕ) (s : Bytes) → (if ltb k (length s) then drop (length s - k) s else s) ≡ last k s
trim-last k s = elim (Bool-cases (ltb k (length s))) [
  | inl p ↦ rw p refl
  | inr p ↦ rw p (ap (λ i. drop i s) (small k s (ground arith)))
]

abbrev marked : ℕ → ℕ
marked limit = limit - length truncation_marker

-- What a buffer of the limit holds that was written `s`.
record Wrote (limit : ℕ) (s : Bytes) (b : Buffer) : Type 0 where
  bound : b.limit ≡ limit
  held :
      ((b.truncated ≡ false) × (b.content ≡ s) × (length s ≤ limit))
      ⊎ ((b.truncated ≡ true) × (b.content ≡ last (marked limit) s) × (limit < length s))

write-Wrote :
    (limit : ℕ) (s t : Bytes) (b : Buffer) → Wrote limit s b → Wrote limit (s ++ t) (write t b)
unfolding write
write-Wrote limit s t b h = record {
  bound = h.bound;
  held = elim h.held [
    | inl x ↦ elim (Bool-cases (ltb limit (length (s ++ t)))) [
      | inl p ↦
          rw (x.0, x.1, h.bound)
            (rw p (inr (refl, trim-last (marked limit) (s ++ t), ground arith)))
      | inr p ↦ rw (x.0, x.1, h.bound) (rw p (inl (refl, rw p refl, ground arith)))
    ]
    | inr x ↦
        rw (x.0, x.1, h.bound)
          (inr (
            refl,
            trim-last (marked limit) (last (marked limit) s ++ t)
                ∙ last-last (marked limit) s t (omega arith),
            omega (arith, length-append s t),
          ))
  ];
}

write_all-Wrote :
    (limit : ℕ) (vs : List Bytes) (s : Bytes) (b : Buffer)
    → Wrote limit s b
    → Wrote limit (s ++ concat vs) (write_all vs b)
unfolding write_all
write_all-Wrote limit [] s b h = rw (append-nil s) h
write_all-Wrote limit (v ∷ vs) s b h =
    rw (sym (append_assoc s v (concat vs)), write_all)
      (write_all-Wrote limit vs (s ++ v) (write v b) (write-Wrote limit s v b h))

-- If the limit has room for the marker, then however the output of a command is cut into writes,
-- the buffer returns the whole output if it is within the limit, and else the marker and the end
-- of the output.
pub write_all-output :
    (limit : ℕ) (vs : List Bytes)
    → length truncation_marker ≤ limit
    → output (write_all vs (new_buffer limit)) ≡ (
        if ltb limit (length (concat vs))
        then truncation_marker ++ last (limit - length truncation_marker) (concat vs)
        else concat vs)
unfolding output new_buffer
write_all-output limit vs h =
    let w =
      write_all-Wrote limit vs [] (new_buffer limit)
        (record { bound = refl; held = inl (refl, refl, omega arith) }) in
    elim w.held [ inl x ↦ rw (x.0, x.1) (ground arith) | inr x ↦ rw (x.0, x.1) (ground arith) ]
