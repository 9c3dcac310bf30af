-- ===== src/Events/Safety.antt =====
-- stream_journal.py, `_safe_value`: what is left of a value that an event keeps.
use agent_app_server.Base.{
  ℕ, ◌+◌, ◌-◌, ◌≤◌, ◌≡◌, ◌⊎◌, inl, inr, refl, max, Bool, true, false, String, arith, ltb,
  Bool-cases, if◌then◌else◌,
}
use agent_app_server.Json.{
  Json, Items, Fields, null, boolean, number, float, text, array, object, nil, cons, field, end,
}
use agent_app_server.Events.{TextOperations, safe_value, safe_items, safe_entries}

unfoldable mutual
  -- How deep lists and dictionaries stand in each other.
  pub height : Json → ℕ
  height (array items) = 1 + height_items items
  height (object fields) = 1 + height_fields fields
  height null = 0
  height (boolean b) = 0
  height (number n) = 0
  height (float n) = 0
  height (text s) = 0

  pub height_items : Items → ℕ
  height_items nil = 0
  height_items (cons v items) = max (height v) (height_items items)

  pub height_fields : Fields → ℕ
  height_fields end = 0
  height_fields (field key v fields) = max (height v) (height_fields fields)

-- A text that went through the redaction, or a mark in the place of a value.
abbrev pub IsRedacted : TextOperations → String → Type 0
IsRedacted t s =
    ((raw : String) × (s ≡ t.redact raw)) ⊎ ((s ≡ "<redacted>") ⊎ (s ≡ "<depth-limit>"))

-- Every text is redacted, and under a sensitive key there is the mark alone.
abbrev mutual
  pub IsSafe : TextOperations → Json → Type 0
  IsSafe t (text s) = IsRedacted t s
  IsSafe t (array items) = AreSafe t items
  IsSafe t (object fields) = IsSafeEntries t fields
  IsSafe t null = Unit
  IsSafe t (boolean b) = Unit
  IsSafe t (number n) = Unit
  IsSafe t (float n) = Unit

  pub AreSafe : TextOperations → Items → Type 0
  AreSafe t nil = Unit
  AreSafe t (cons v items) = IsSafe t v × AreSafe t items

  pub IsSafeEntries : TextOperations → Fields → Type 0
  IsSafeEntries t end = Unit
  IsSafeEntries t (field key v fields) =
      (if t.is_sensitive key then v ≡ text "<redacted>" else IsSafe t v) × IsSafeEntries t fields

limited-IsSafe :
    (t : TextOperations) (deep : Bool) (v : Json)
    → IsSafe t v
    → IsSafe t (if deep then text "<depth-limit>" else v)
limited-IsSafe t true v h = inr (inr refl)
limited-IsSafe t false v h = h

entry-IsSafe :
    (t : TextOperations) (key : String) (v : Json)
    → IsSafe t v
    → (b : Bool) → t.is_sensitive key ≡ b
    → if t.is_sensitive key
      then (if b then text "<redacted>" else v) ≡ text "<redacted>"
      else IsSafe t (if b then text "<redacted>" else v)
entry-IsSafe t key v h true e = rw e refl
entry-IsSafe t key v h false e = rw e h

mutual
  unfolding safe_value

  pub safe_value-IsSafe :
      (t : TextOperations) (depth : ℕ) (v : Json) → IsSafe t (safe_value t depth v)
  safe_value-IsSafe t depth null = limited-IsSafe t (ltb 8 depth) null tt
  safe_value-IsSafe t depth (boolean b) = limited-IsSafe t (ltb 8 depth) (boolean b) tt
  safe_value-IsSafe t depth (number n) = limited-IsSafe t (ltb 8 depth) (number n) tt
  safe_value-IsSafe t depth (float n) = limited-IsSafe t (ltb 8 depth) (float n) tt
  safe_value-IsSafe t depth (text s) =
      limited-IsSafe t (ltb 8 depth) (text (t.redact s)) (inl (s, refl))
  safe_value-IsSafe t depth (array items) =
      limited-IsSafe t (ltb 8 depth) (array (safe_items t (depth + 1) items))
        (safe_items-AreSafe t (depth + 1) items)
  safe_value-IsSafe t depth (object fields) =
      limited-IsSafe t (ltb 8 depth) (object (safe_entries t (depth + 1) fields))
        (safe_entries-IsSafeEntries t (depth + 1) fields)

  safe_items-AreSafe :
      (t : TextOperations) (depth : ℕ) (items : Items) → AreSafe t (safe_items t depth items)
  safe_items-AreSafe t depth nil = tt
  safe_items-AreSafe t depth (cons v items) =
      (safe_value-IsSafe t depth v, safe_items-AreSafe t depth items)

  safe_entries-IsSafeEntries :
      (t : TextOperations) (depth : ℕ) (fields : Fields)
      → IsSafeEntries t (safe_entries t depth fields)
  safe_entries-IsSafeEntries t depth end = tt
  safe_entries-IsSafeEntries t depth (field key v fields) = (
    entry-IsSafe t key (safe_value t depth v) (safe_value-IsSafe t depth v) (t.is_sensitive key)
        refl,
    safe_entries-IsSafeEntries t depth fields,
  )

limited-height :
    (depth : ℕ) (v : Json)
    → height v ≤ 1 + (9 - (depth + 1))
    → height (if ltb 8 depth then text "<depth-limit>" else v) ≤ 9 - depth
unfolding height
limited-height depth v h = elim (Bool-cases (ltb 8 depth)) [
  | inl deep ↦ rw deep (omega arith)
  | inr shallow ↦ rw shallow (ground arith)
]

entry-height :
    (t : TextOperations) (key : String) (v : Json) (n : ℕ)
    → height v ≤ n
    → height (if t.is_sensitive key then text "<redacted>" else v) ≤ n
unfolding height
entry-height t key v n h = elim (Bool-cases (t.is_sensitive key)) [
  | inl hidden ↦ rw hidden (omega arith)
  | inr kept ↦ rw kept h
]

mutual
  unfolding safe_value height

  pub height-safe_value :
      (t : TextOperations) (depth : ℕ) (v : Json) → height (safe_value t depth v) ≤ 9 - depth
  height-safe_value t depth null = limited-height depth null (omega arith)
  height-safe_value t depth (boolean b) = limited-height depth (boolean b) (omega arith)
  height-safe_value t depth (number n) = limited-height depth (number n) (omega arith)
  height-safe_value t depth (float n) = limited-height depth (float n) (omega arith)
  height-safe_value t depth (text s) = limited-height depth (text (t.redact s)) (omega arith)
  height-safe_value t depth (array items) =
      limited-height depth (array (safe_items t (depth + 1) items))
        (omega (arith, height-safe_items t (depth + 1) items))
  height-safe_value t depth (object fields) =
      limited-height depth (object (safe_entries t (depth + 1) fields))
        (omega (arith, height-safe_entries t (depth + 1) fields))

  height-safe_items :
      (t : TextOperations) (depth : ℕ) (items : Items)
      → height_items (safe_items t depth items) ≤ 9 - depth
  height-safe_items t depth nil = omega arith
  height-safe_items t depth (cons v items) =
      omega (arith, height-safe_value t depth v, height-safe_items t depth items)

  height-safe_entries :
      (t : TextOperations) (depth : ℕ) (fields : Fields)
      → height_fields (safe_entries t depth fields) ≤ 9 - depth
  height-safe_entries t depth end = omega arith
  height-safe_entries t depth (field key v fields) = omega (
    arith,
    entry-height t key (safe_value t depth v) (9 - depth) (height-safe_value t depth v),
    height-safe_entries t depth fields,
  )

-- In a value that an event keeps every text is redacted or a mark, a sensitive key has the mark alone, and
-- lists and dictionaries stand in each other at most nine deep, however deep and whatever the value was.
pub safe_value_lem :
    (t : TextOperations) (v : Json) → IsSafe t (safe_value t 0 v) × (height (safe_value t 0 v) ≤ 9)
safe_value_lem t v = (safe_value-IsSafe t 0 v, omega (arith, height-safe_value t 0 v))
