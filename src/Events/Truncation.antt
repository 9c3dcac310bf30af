-- ===== src/Events/Truncation.antt =====
-- stream_journal.py, `_truncate_output`: how long the text is that an event keeps.
use Prim.Native.Char.{Char, len_utf8}
use Prim.Native.Nat.{compare, Ordering}
use Prim.Native.String.{len, slice, fits}
use Prim.Native.String.{[] as empty, ◌∷◌ as ◌▹◌}
use Prim.Native.String.slice
use Prim.Native.String.len
use agent_app_server.Base.{
  ℕ, zero, suc, ◌+◌, ◌-◌, ◌*◌, ◌/◌, ◌≤◌, ◌<◌, ◌≡◌, ◌⊎◌, inl, inr, refl, subst, sym, true, String,
  arith, leb, Bool-cases,
}
use text.Mathlib.TextPositions.{len-append}
use agent_app_server.Texts.{◌<>◌}
use agent_app_server.Events.{TextOperations, marker, last_bytes, shortened, truncate_output}

len-empty : len "" ≡ 0
len-empty = refl

pub len-cons : (c : Char) (s : String) → len (c ▹ s) ≡ len_utf8 c + len s
len-cons c s = len.cons c s

len-fits :
    (c : Char) (s : String) (b : ℕ) (o : Ordering)
    → compare (len_utf8 c) b ≡ o
    → len s ≤ b - len_utf8 c
    → len (fits o c s) ≤ b
len-fits c s b Ordering.lt e h = ground (arith, len-cons c s)
len-fits c s b Ordering.eq e h = ground (arith, len-cons c s)
len-fits c s b Ordering.gt e h = omega (arith, len-empty)

len-slice : (s : String) (a b : ℕ) → len (slice s a b) ≤ b - a
len-slice empty a b = subst (λ x. len x ≤ b - a) (sym (slice.nil a b)) (omega (arith, len-empty))
len-slice (c ▹ s) zero b =
    subst (λ x. len x ≤ b - 0) (sym (slice.cons-zero c s b))
      (omega (
        arith,
        len-fits c (slice s zero (b - len_utf8 c)) b (compare (len_utf8 c) b) refl
            (omega (arith, len-slice s zero (b - len_utf8 c))),
      ))
len-slice (c ▹ s) (suc a) b =
    subst (λ x. len x ≤ b - suc a) (sym (slice.cons-suc c s a b))
      (omega (arith, len-slice s (suc a - len_utf8 c) (b - len_utf8 c)))

len-last_bytes : (n : ℕ) (s : String) → 0 < n → len (last_bytes n s) ≤ n
len-last_bytes zero s h = let bad : ⊥ = omega arith in absurd bad
len-last_bytes (suc n) s h = omega (arith, len-slice s (len s - suc n) (len s))

len-shortened : (limit : ℕ) (s : String) → len marker < limit → len (shortened limit s) ≤ limit
len-shortened limit s room =
    let payload = limit - len marker in
    let head = (payload * 3) / 4 in
    let tail = last_bytes (payload - head) s in
    omega (
      arith,
      len-append (slice s 0 head) (marker <> tail),
      len-append marker tail,
      len-slice s 0 head,
      len-last_bytes (payload - head) s (omega arith),
    )

-- With a limit that has room for the mark of an omission, the kept text has at most that many bytes; it is
-- the whole redacted text, or it is marked as truncated; the count is that of the original.
pub truncate_output_lem :
    (t : TextOperations) (limit : ℕ) (raw : String)
    → len marker < limit
    → let kept = truncate_output t limit raw in
      (len kept.output ≤ limit)
      × ((kept.output ≡ t.redact raw) ⊎ (kept.is_truncated ≡ true))
      × (kept.byte_count ≡ len raw)
unfolding truncate_output
truncate_output_lem t limit raw room = elim (Bool-cases (leb (len (t.redact raw)) limit)) [
  | inl fits_whole ↦ rw fits_whole (ground arith, inl refl, refl)
  | inr too_long ↦ rw too_long (len-shortened limit (t.redact raw) room, inr refl, refl)
]
