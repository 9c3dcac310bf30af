-- ===== src/Journal/Queue.antt =====
-- stream_journal.py, `append`: the loop that drains the queue of requests, which belong to many threads.
use agent_app_server.Base.{
  ◌≡◌, ◌≢◌, refl, sym, ap, ◌∙◌, subst, ite, select, Bool, true, false, Option, none, some, List, [],
  ◌∷◌, String, String-discrete, Result, ok, err, Result-cases, Bool-cases, inl, inr, arith,
  if◌then◌else◌, holds,
}
use agent_app_server.Base.Dict
use agent_app_server.Base.Dict.{Dict}
use agent_app_server.Json.{Fields}
use agent_app_server.Journal.Lifecycle.{missing}
use agent_app_server.Journal.Durable.{kept_writer}
use agent_app_server.Journal.Writing.{JournalError, JournalAppend, Writer, Stamp, append_now}

-- `_AppendRequest`: the thread, the values, and whether the caller has cancelled the future.
pub record AppendRequest : Type 0 where
  pub thread_id : String
  pub stamp : Stamp
  pub values : Fields
  pub is_cancelled : Bool

-- What the future of a request is given; nothing, if it was cancelled.
abbrev pub Answer : Type 0
Answer = Option (Result JournalError JournalAppend)

-- The file and the memory of each thread; a thread without a file yet has neither.
unfoldable pub writer_of : Dict String Writer → String → Writer
writer_of writers thread_id = elim (Dict.get String-discrete writers thread_id) [
  | none ↦ record { file = missing; state = none }
  | some w ↦ w
]

-- One round of the drain loop.
unfoldable pub drain_one : AppendRequest → Dict String Writer → Answer × Dict String Writer
unfolding append_now writer_of
drain_one r writers =
    let appended = append_now r.thread_id r.stamp r.values (writer_of writers r.thread_id) in
    if r.is_cancelled then (none, writers) else elim appended [
      | err e ↦ (some (err e), writers)
      | ok (w, answer) ↦ (some (ok answer), Dict.put String-discrete writers r.thread_id w)
    ]

-- The drain loop
unfoldable pub drain : List AppendRequest → Dict String Writer → List Answer × Dict String Writer
unfolding drain_one
drain [] writers = ([], writers)
drain (r ∷ requests) writers =
    let (answer, writers₁) = drain_one r writers in
    let (answers, writers₂) = drain requests writers₁ in (answer ∷ answers, writers₂)

abbrev pub is_for : String → AppendRequest → Bool
is_for thread_id r = holds (String-discrete r.thread_id thread_id)

-- The answers that the requests of a thread were given.
unfoldable pub answers_for : String → List AppendRequest → List Answer → List Answer
answers_for thread_id (r ∷ requests) (answer ∷ answers) =
    let rest = answers_for thread_id requests answers in
    if is_for thread_id r then answer ∷ rest else rest
answers_for thread_id _ _ = []

abbrev pub answer_of :
    Result JournalError (Writer × JournalAppend) → Result JournalError JournalAppend
answer_of (ok result) = ok result.1
answer_of (err e) = err e

-- A thread by itself: its requests are appended one after the other, each to what the ones before it
-- have left; a cancelled one is passed over, and a failed one leaves everything as it was.
unfoldable pub alone : String → Writer → List AppendRequest → List Answer × Writer
alone thread_id w [] = ([], w)
alone thread_id w (r ∷ requests) =
    let appended = append_now thread_id r.stamp r.values w in
    let after = if r.is_cancelled then w else kept_writer w appended in
    let (answers, last) = alone thread_id after requests in
    ((if r.is_cancelled then none else some (answer_of appended)) ∷ answers, last)

-- A drained thread, against itself alone.
abbrev pub IsDrained :
    String → List AppendRequest → Dict String Writer → List Answer × Dict String Writer → Type 0
IsDrained thread_id requests writers (answers, writers') =
    let (expected, last) =
      alone thread_id (writer_of writers thread_id) (select (is_for thread_id) requests) in
    (answers_for thread_id requests answers ≡ expected) × (writer_of writers' thread_id ≡ last)

ite_true : {P : Type 0} (d : Dec P) (x y : Writer) → P → ite d x y ≡ x
ite_true (yes _) x y p = refl
ite_true (no apart) x y p = absurd (apart p)

holds-true : {P : Type 0} (d : Dec P) → P → holds d ≡ true
holds-true (yes _) p = refl
holds-true (no apart) p = absurd (apart p)

writer_of-put :
    (writers : Dict String Writer) (k j : String) (w : Writer)
    → writer_of (Dict.put String-discrete writers k w) j
      ≡ ite (String-discrete k j) w (writer_of writers j)
unfolding writer_of
writer_of-put writers k j w = ground (arith, Dict.get-put String-discrete writers k j w)

drain_one-own :
    (r : AppendRequest) (writers : Dict String Writer)
    → let appended = append_now r.thread_id r.stamp r.values (writer_of writers r.thread_id) in
      ((drain_one r writers).0 ≡ (if r.is_cancelled then none else some (answer_of appended)))
      × (writer_of (drain_one r writers).1 r.thread_id ≡ (
          if r.is_cancelled
          then writer_of writers r.thread_id
          else kept_writer (writer_of writers r.thread_id) appended))
unfolding drain_one
drain_one-own r writers = elim (Bool-cases r.is_cancelled) [
  | inl cancelled ↦ rw (cancelled, drain_one) (refl, refl)
  | inr kept ↦
      elim (Result-cases
        (append_now r.thread_id r.stamp r.values (writer_of writers r.thread_id))) [
          | inl (result, e) ↦
              rw (kept, e, drain_one)
                (
                  refl,
                  writer_of-put writers r.thread_id r.thread_id result.0
                      ∙ ite_true (String-discrete r.thread_id r.thread_id) result.0
                          (writer_of writers r.thread_id) refl,
                )
          | inr (x, e) ↦ rw (kept, e, drain_one) (refl, refl)
        ]
]

drain_one-other :
    (r : AppendRequest) (writers : Dict String Writer) (thread_id : String)
    → r.thread_id ≢ thread_id
    → writer_of (drain_one r writers).1 thread_id ≡ writer_of writers thread_id
unfolding drain_one
drain_one-other r writers thread_id apart = elim (Bool-cases r.is_cancelled) [
  | inl cancelled ↦ rw (cancelled, drain_one) refl
  | inr kept ↦
      elim (Result-cases
        (append_now r.thread_id r.stamp r.values (writer_of writers r.thread_id))) [
          | inl (result, e) ↦
              rw (kept, e, drain_one)
                (ground (arith, writer_of-put writers r.thread_id thread_id result.0))
          | inr (x, e) ↦ rw (kept, e, drain_one) refl
        ]
]

IsDrained-other :
    (thread_id : String) (r : AppendRequest) (requests : List AppendRequest)
    (writers : Dict String Writer)
    → r.thread_id ≢ thread_id
    → IsDrained thread_id requests (drain_one r writers).1 (drain requests (drain_one r writers).1)
    → IsDrained thread_id (r ∷ requests) writers (drain (r ∷ requests) writers)
unfolding drain answers_for
IsDrained-other thread_id r requests writers apart (answers, last) =
    let elsewhere : is_for thread_id r ≡ false = ground arith in
    rw (elsewhere, sym (drain_one-other r writers thread_id apart), answers_for) (answers, last)

IsDrained-own :
    (r : AppendRequest) (requests : List AppendRequest) (writers : Dict String Writer)
    → IsDrained r.thread_id requests
        (drain_one r writers).1
        (drain requests (drain_one r writers).1)
    → IsDrained r.thread_id (r ∷ requests) writers (drain (r ∷ requests) writers)
unfolding drain answers_for alone
IsDrained-own r requests writers (answers, last) =
    let here = holds-true (String-discrete r.thread_id r.thread_id) refl in
    let (answer, after) = drain_one-own r writers in
    rw (here, sym after, sym answer, answers_for, alone)
      (ap (λ rest. (drain_one r writers).0 ∷ rest) answers, last)

-- Draining the queue treats each thread as if it were alone: whatever other threads' requests lie in
-- between, its requests are appended one after the other, each one that was not cancelled is given the
-- answer of its own append, a failed one changes nothing and does not stop the rest, and the
-- thread's file and memory are what these appends leave.
pub drain_lem :
    (requests : List AppendRequest) (writers : Dict String Writer) (thread_id : String)
    → IsDrained thread_id requests writers (drain requests writers)
unfolding drain answers_for alone
drain_lem [] writers thread_id = (refl, refl)
drain_lem (r ∷ requests) writers thread_id = elim (String-discrete r.thread_id thread_id) [
  | yes same ↦
      subst (λ t. IsDrained t (r ∷ requests) writers (drain (r ∷ requests) writers)) same
        (IsDrained-own r requests writers (drain_lem requests (drain_one r writers).1 r.thread_id))
  | no apart ↦
      IsDrained-other thread_id r requests writers apart
        (drain_lem requests (drain_one r writers).1 thread_id)
]
