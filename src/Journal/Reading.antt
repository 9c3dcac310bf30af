-- ===== src/Journal/Reading.antt =====
-- stream_journal.py, `_read_file`: what the reported coverage means, and what an undamaged file is.
use agent_app_server.Base.{
  ◌≡◌, refl, sym, ap, ◌∙◌, ◌↔◌, Bool, true, false, ◌&&◌, not, Option, none, some, List, [], ◌∷◌,
  arith, String, String-discrete, any, all, select, is_some,
}
use agent_app_server.Base.Dict
use agent_app_server.Base.Dict.{Dict, values}
use agent_app_server.Json.{Fields}
use agent_app_server.Journal.{complete}
use agent_app_server.Journal.Lifecycle.{
  turn_id_of, add_to_turn, group_turns, no_turns, is_nil, is_domain, is_complete_turn, has_type,
  coverage_of,
}
use agent_app_server.Journal.Grouping.{
  of_turn, grown, get-group_turns, group_turns-IsUnique, all-values, all-values_of_get,
}

-- Whether an event belongs to a turn.
abbrev pub has_turn : Fields → Bool
has_turn event = is_some (turn_id_of event)

no_turns-put :
    (turns : Dict String (List Fields)) (t : String) (events : List Fields)
    → no_turns (Dict.put String-discrete turns t events) ≡ false
unfolding Dict.put
no_turns-put [] t events = refl
no_turns-put ((s, es) ∷ turns) t events = ground arith

no_turns-step :
    (turns : Dict String (List Fields)) (o : Option String) (e : Fields)
    → no_turns (elim o [ none ↦ turns | some t ↦ add_to_turn turns t e ])
      ≡ (no_turns turns && not (is_some o))
unfolding add_to_turn
no_turns-step turns none e = ground arith
no_turns-step turns (some t) e = no_turns-put turns t _ ∙ ground arith

no_turns-group_turns :
    (turns : Dict String (List Fields)) (events : List Fields)
    → no_turns (group_turns turns events) ≡ (no_turns turns && not (any has_turn events))
unfolding group_turns
no_turns-group_turns turns [] = ground arith
no_turns-group_turns turns (e ∷ events) = ground (
  arith,
  no_turns-group_turns (elim (turn_id_of e) [ none ↦ turns | some t ↦ add_to_turn turns t e ])
      events,
  no_turns-step turns (turn_id_of e) e,
)

no_turns-get :
    (turns : Dict String (List Fields)) (t : String) (events : List Fields)
    → Dict.get String-discrete turns t ≡ some events
    → no_turns turns ≡ false
unfolding Dict.get
no_turns-get [] t events e = cc
no_turns-get (x ∷ turns) t events e = refl

-- The events that the coverage looks at.
abbrev pub domain_of : List Fields → List Fields
domain_of events = select is_domain events

-- What "complete" promises of a journal's events.
abbrev pub Covers : Bool → List Fields → Type 0
Covers damaged events =
    (damaged ≡ false)
    × (is_nil (domain_of events) ≡ false)
    × ((t : String)
        → is_nil (select (of_turn t) (domain_of events)) ≡ false
        → is_complete_turn (select (of_turn t) (domain_of events)) ≡ true)
    × (any has_turn (domain_of events) ≡ false
        → any (has_type "history.baseline_imported") (domain_of events) ≡ true)

get-turn :
    (domain : List Fields) (t : String)
    → is_nil (select (of_turn t) domain) ≡ false
    → Dict.get String-discrete (group_turns [] domain) t ≡ some (select (of_turn t) domain)
unfolding Dict.get
get-turn domain t some_event =
    get-group_turns [] domain t ∙ grown-some (select (of_turn t) domain) some_event
  where
    grown-some : (es : List Fields) → is_nil es ≡ false → grown none es ≡ some es
    grown-some [] h = cc
    grown-some (e ∷ es) h = refl

turn-get :
    (domain : List Fields) (t : String) (events : List Fields)
    → Dict.get String-discrete (group_turns [] domain) t ≡ some events
    → (select (of_turn t) domain ≡ events) × (is_nil (select (of_turn t) domain) ≡ false)
unfolding Dict.get
turn-get domain t events e =
    some-grown (select (of_turn t) domain) (sym (get-group_turns [] domain t) ∙ e)
  where
    some-grown :
        (es : List Fields) → grown none es ≡ some events → (es ≡ events) × (is_nil es ≡ false)
    some-grown [] h = cc
    some-grown (x ∷ es) h = (cc, refl)

coverage-Covers :
    (damaged : Bool) (events : List Fields)
    → coverage_of damaged events ≡ complete
    → Covers damaged events
unfolding coverage_of
coverage-Covers damaged events h =
    let domain = domain_of events in
    let turns = group_turns [] domain in
    (
      ground arith,
      ground arith,
      λ t some_event.
          let e = get-turn domain t some_event in
          all-values is_complete_turn turns t (select (of_turn t) domain)
            (ground (arith, no_turns-get turns t (select (of_turn t) domain) e)) e,
      λ no_turn. ground (arith, no_turns-group_turns [] domain),
    )

Covers-coverage :
    (damaged : Bool) (events : List Fields)
    → Covers damaged events
    → coverage_of damaged events ≡ complete
unfolding coverage_of
Covers-coverage damaged events (sound, some_event, turns_complete, baseline) =
    let domain = domain_of events in
    let turns = group_turns [] domain in
    let each : all is_complete_turn (values turns) ≡ true =
      all-values_of_get is_complete_turn turns (group_turns-IsUnique [] domain tt) (λ t es e.
        let (same, nonempty) = turn-get domain t es e in
        sym (ap is_complete_turn same) ∙ turns_complete t nonempty) in
    ground (arith, no_turns-group_turns [] domain, baseline)

-- The coverage is "complete" exactly when the file is undamaged, has an event besides its opening,
-- has for each turn a start and a terminal event (among the live ones where it has any), and, with
-- no turns at all, has the mark of an imported history.
pub coverage_of_lem :
    (damaged : Bool) (events : List Fields)
    → coverage_of damaged events ≡ complete ↔ Covers damaged events
coverage_of_lem damaged events = (coverage-Covers damaged events, Covers-coverage damaged events)
