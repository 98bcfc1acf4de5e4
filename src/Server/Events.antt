-- ===== src/Server/Events.antt =====
-- machineEvent of server/logging.go: the last ten events of every machine.
pub mod State
use netboot.Prelude.{
  ℕ, zero, suc, ◌-◌, ◌≤◌, ◌≡◌, ◌⊎◌, inl, inr, Bool-cases, ==_iff, refl, sym, ap, ◌∙◌, arith, true,
  Option, none, some, List, [], ◌∷◌, ◌++◌, Bytes, length, length-append, length-drop, drop, ltb,
  if◌then◌else◌, if_ind, ◌==◌,
}
use mathlib.Core.Path.{subst}
use netboot.Prelude.Assoc.{Assoc, lookup, insert, lookup-insert}

abbrev pub saved_events_per_machine : ℕ
saved_events_per_machine = 10

-- type machineEvent. The key of the map is the text of the MAC address; a number stands for it.
pub record Event : Type 0 where
  pub timestamp : ℕ
  pub state : ℕ
  pub message : Bytes

-- A missing key reads as nil, an empty slice.
logged : Option (List Event) → List Event
logged none = []
logged (some es) = es

unfoldable pub events_of : ℕ → Assoc (List Event) → List Event
unfolding lookup logged
events_of k m = logged (lookup k m)

trim : List Event → List Event
trim es =
    if ltb saved_events_per_machine (length es)
    then drop (length es - saved_events_per_machine) es
    else es

unfoldable pub machine_event : ℕ → Event → Assoc (List Event) → Assoc (List Event)
unfolding insert trim events_of
machine_event k e m = insert k (trim (events_of k m ++ (e ∷ []))) m

trim_lem :
    (es : List Event) (e : Event)
    → (length (trim (es ++ (e ∷ []))) ≤ saved_events_per_machine)
      × ((old : List Event) × (trim (es ++ (e ∷ [])) ≡ old ++ (e ∷ [])))
unfolding trim
trim_lem es e =
    if_ind P (ltb saved_events_per_machine (length (es ++ (e ∷ [])))) _ _
      (λ t. (
        omega (arith, length-drop n (es ++ (e ∷ []))),
        (drop n es, drop-append es n (omega (arith, length-append es (e ∷ [])))),
      ))
      (λ f. (ground arith, (es, refl)))
  where
    n : ℕ
    n = length (es ++ (e ∷ [])) - saved_events_per_machine

    P : List Event → Type 0
    P r = (length r ≤ saved_events_per_machine) × ((old : List Event) × (r ≡ old ++ (e ∷ [])))

    drop-append :
        (xs : List Event) (k : ℕ) → k ≤ length xs → drop k (xs ++ (e ∷ [])) ≡ drop k xs ++ (e ∷ [])
    drop-append xs zero h = refl
    drop-append [] (suc k) h = absurd (omega arith)
    drop-append (x ∷ xs) (suc k) h = drop-append xs k (omega arith)

-- After an event of a machine, its log has at most ten events and ends with that event; the logs
-- of the other machines are as before.
pub machine_event_lem :
    (k : ℕ) (e : Event) (m : Assoc (List Event))
    → ((length (events_of k (machine_event k e m)) ≤ saved_events_per_machine)
        × ((old : List Event) × (events_of k (machine_event k e m) ≡ old ++ (e ∷ []))))
      × ((j : ℕ) → (j ≡ k) ⊎ (events_of j (machine_event k e m) ≡ events_of j m))
unfolding machine_event events_of logged
machine_event_lem k e m = (subst P (sym (at_key)) (trim_lem (events_of k m) e), λ j. elsewhere j)
  where
    new : List Event
    new = trim (events_of k m ++ (e ∷ []))

    P : List Event → Type 0
    P r = (length r ≤ saved_events_per_machine) × ((old : List Event) × (r ≡ old ++ (e ∷ [])))

    at_key : events_of k (insert k new m) ≡ new
    at_key =
        let same : (k == k) ≡ true = ground arith in
        let there : (if k == k then some new else lookup k m) ≡ some new = rw same in
        ap (λ o. logged o) (lookup-insert k k new m ∙ there)

    elsewhere : (j : ℕ) → (j ≡ k) ⊎ (events_of j (insert k new m) ≡ events_of j m)
    elsewhere j = elim (Bool-cases (k == j)) [
      | inl t ↦ inl (sym ((==_iff k j).0 t))
      | inr f ↦
          let other : (if k == j then some new else lookup j m) ≡ lookup j m = rw f in
          inr (ap (λ o. logged o) (lookup-insert k j new m ∙ other))
    ]
