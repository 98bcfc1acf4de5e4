-- ===== src/Server/Run/Channel/Sends.antt =====
-- What reaches Serve through the channel, and that no service is left waiting.
use netboot.Prelude.{
  ℕ, suc, ◌+◌, ◌≤◌, ◌≡◌, refl, sym, ap, ◌∙◌, Bool, true, false, Option, none, some, List, [], ◌∷◌,
  ◌++◌, Bytes, length, length-append, lt→ltb, if◌then◌else◌, if_ind, ◌⊎◌, inl, inr, first_some,
  first_some-none, arith,
}
use netboot.Server.Run.Channel.{
  Service, State, start, Event, ends, shutdown, takes, same_service, without, has_room, sent_by,
  taken_from, step, after, run,
}

-- The calls of Shutdown among the events.
abbrev pub shutdowns : List Event → ℕ
shutdowns [] = 0
shutdowns (shutdown ∷ es) = suc (shutdowns es)
shutdowns (ends s e ∷ es) = shutdowns es
shutdowns (takes ∷ es) = shutdowns es

-- The first value that is sent: the error of the service that ends first, or nil by Shutdown.
abbrev pub first_sent : List Event → Option (Option Bytes)
first_sent [] = none
first_sent (shutdown ∷ es) = some none
first_sent (ends s e ∷ es) = some e
first_sent (takes ∷ es) = first_sent es

abbrev head : List (Option Bytes) → Option (Option Bytes)
head [] = none
head (e ∷ es) = some e

-- The first value that has gone through the channel.
abbrev first_of : State → Option (Option Bytes)
first_of st = first_some st.taken (head st.queue)

some_state : {a b : State} → ◌≡◌ {A = Option State} (some a) (some b) → b ≡ a
some_state h = cc

chosen :
    (b : Bool) (t : Service) (ts : List Service) (rest : Option (List Service)) {o : List Service}
    → ((u : List Service) → rest ≡ some u → length ts ≡ suc (length u))
    → (if b then some ts else elim rest [ none ↦ none | some us ↦ some (t ∷ us) ]) ≡ some o
    → length ts ≡ length o
chosen true t ts rest ih h = let e : ts ≡ _ = cc in ap (λ l. length l) e
chosen false t ts none ih h = absurd (cc)
chosen false t ts (some us) {o} ih h = let e : t ∷ us ≡ o = cc in ih us refl ∙ ap (λ l. length l) e

length-without :
    (s : Service) (ss : List Service) {o : List Service}
    → without s ss ≡ some o
    → length ss ≡ suc (length o)
unfolding without
length-without s [] h = absurd (cc)
length-without s (t ∷ ts) h =
    ap suc (chosen (same_service s t) t ts (without s ts) (λ u e. length-without s ts e) h)

-- The values in the channel and those still to come.
abbrev load : State → ℕ
load st = length st.queue + length st.running

sent_by-load :
    (st : State) (e : Option Bytes) (o : Option (List Service)) {st' : State}
    → ((u : List Service) → o ≡ some u → length st.running ≡ suc (length u))
    → sent_by st e o ≡ some st'
    → load st' ≤ load st
unfolding sent_by
sent_by-load st e none fewer h = absurd (cc)
sent_by-load st e (some u) fewer h =
    rw (some_state h) (omega (arith, fewer u refl, length-append st.queue (e ∷ [])))

taken_from-load :
    (st : State) (t : Option (Option Bytes)) (q : List (Option Bytes)) {st' : State}
    → st.queue ≡ q
    → taken_from st t q ≡ some st'
    → load st' ≤ load st
unfolding taken_from
taken_from-load st (some e) q same h = absurd (cc)
taken_from-load st none [] same h = absurd (cc)
taken_from-load st none (e ∷ q) same h = rw (some_state h) (omega (arith, ap (λ l. length l) same))

step-load :
    (e : Event) (st : State) {st' : State}
    → step e st ≡ some st'
    → load st' ≤ load st + shutdowns (e ∷ [])
unfolding step
step-load (ends s e) st {st'} h =
    if_ind P (has_room st) _ _
      (λ t k.
        let l =
          sent_by-load st e (without s st.running) (λ u k'. length-without s st.running k') k in
        omega arith)
      (λ f k. absurd (cc)) h
  where
    P : Option State → Type 0
    P m = m ≡ some st' → load st' ≤ load st + 0
step-load shutdown st h = rw (some_state h) (
    if_ind (λ m. load m ≤ load st + 1) (has_room st) _ _
      (λ t. omega (arith, length-append st.queue (none ∷ []))) (λ f. omega arith))
step-load takes st h = let l = taken_from-load st st.taken st.queue refl h in omega arith

first-push :
    (t : Option (Option Bytes)) (q : List (Option Bytes)) (e : Option Bytes)
    → first_some t (head (q ++ (e ∷ []))) ≡ first_some (first_some t (head q)) (some e)
first-push (some x) q e = refl
first-push none [] e = refl
first-push none (y ∷ q) e = refl

first-full :
    (t : Option (Option Bytes)) (q : List (Option Bytes)) (e : Option Bytes)
    → 1 ≤ length q
    → first_some t (head q) ≡ first_some (first_some t (head q)) (some e)
first-full (some x) q e h = refl
first-full none [] e h = absurd (omega arith)
first-full none (y ∷ q) e h = refl

sent_by-first :
    (st : State) (e : Option Bytes) (o : Option (List Service)) {st' : State}
    → sent_by st e o ≡ some st'
    → first_of st' ≡ first_some (first_of st) (some e)
unfolding sent_by
sent_by-first st e none h = absurd (cc)
sent_by-first st e (some u) h = rw (some_state h) (first-push st.taken st.queue e)

taken_from-first :
    (st : State) (t : Option (Option Bytes)) (q : List (Option Bytes)) {st' : State}
    → taken_from st t q ≡ some st'
    → first_of st' ≡ first_some (first_some t (head q)) none
unfolding taken_from
taken_from-first st (some e) q h = absurd (cc)
taken_from-first st none [] h = absurd (cc)
taken_from-first st none (e ∷ q) h = rw (some_state h) refl

step-first :
    (e : Event) (st : State) {st' : State}
    → step e st ≡ some st'
    → first_of st' ≡ first_some (first_of st) (first_sent (e ∷ []))
unfolding step
step-first (ends s e) st {st'} h =
    if_ind P (has_room st) _ _ (λ t k. sent_by-first st e (without s st.running) k)
      (λ f k. absurd (cc)) h
  where
    P : Option State → Type 0
    P m = m ≡ some st' → first_of st' ≡ first_some (first_of st) (some e)
step-first shutdown st h = rw (some_state h) (
    if_ind (λ m. first_of m ≡ first_some (first_of st) (some none)) (has_room st) _ _
      (λ t. first-push st.taken st.queue none)
      (λ f. first-full st.taken st.queue none (ground arith)))
step-first takes st h = taken_from-first st st.taken st.queue h

-- The first event of a run that goes on.
after-some :
    (next : State → Option State) (o : Option State) {st : State}
    → after next o ≡ some st
    → (mid : State) × (o ≡ some mid) × (next mid ≡ some st)
unfolding after
after-some next none h = absurd (cc)
after-some next (some mid) h = (mid, refl, h)

shutdowns-cons :
    (e : Event) (es : List Event) → shutdowns (e ∷ es) ≡ shutdowns (e ∷ []) + shutdowns es
shutdowns-cons (ends s x) es = omega arith
shutdowns-cons shutdown es = omega arith
shutdowns-cons takes es = omega arith

first_sent-cons :
    (e : Event) (es : List Event)
    → first_sent (e ∷ es) ≡ first_some (first_sent (e ∷ [])) (first_sent es)
first_sent-cons (ends s x) es = refl
first_sent-cons shutdown es = refl
first_sent-cons takes es = refl

first_some_assoc :
    (a b c : Option (Option Bytes)) → first_some (first_some a b) c ≡ first_some a (first_some b c)
first_some_assoc none b c = refl
first_some_assoc (some x) b c = refl

run-load :
    (es : List Event) (st : State) {st' : State}
    → run es st ≡ some st'
    → load st' ≤ load st + shutdowns es
unfolding run
run-load [] st h = rw (some_state h) (omega arith)
run-load (e ∷ es) st h =
    let (mid, one, more) = after-some (run es) (step e st) h in
    let a = step-load e st one in let b = run-load es mid more in omega (arith, shutdowns-cons e es)

run-first :
    (es : List Event) (st : State) {st' : State}
    → run es st ≡ some st'
    → first_of st' ≡ first_some (first_of st) (first_sent es)
unfolding run
run-first [] st h = rw (some_state h) (sym (first_some-none (first_of st)))
run-first (e ∷ es) st h =
    let (mid, one, more) = after-some (run es) (step e st) h in
    run-first es mid more
    ∙ (ap (λ t. first_some t (first_sent es)) (step-first e st one)
        ∙ (first_some_assoc (first_of st) (first_sent (e ∷ [])) (first_sent es)
            ∙ ap (first_some (first_of st)) (sym (first_sent-cons e es))))

-- No service is left waiting at its end: in every state that the start leads to, with two calls of
-- Shutdown at most, a service that has not sent yet can send its error at once, whether Serve takes
-- values or not.
pub run-ends :
    (es : List Event) (st : State) (s : Service) (e : Option Bytes) (others : List Service)
    → run es start ≡ some st
    → shutdowns es ≤ 2
    → without s st.running ≡ some others
    → step (ends s e) st ≡ some (record st { queue = st.queue ++ (e ∷ []); running = others })
unfolding step sent_by
run-ends es st s e others reached few still =
    let total = run-load es start reached in
    let one_left = length-without s st.running still in
    let room : has_room st ≡ true = lt→ltb _ _ (omega arith) in rw (room, still) refl

takes-first :
    (st : State) (t : Option (Option Bytes)) (q : List (Option Bytes)) (e : Option Bytes)
    → first_some t (head q) ≡ some e
    → (t ≡ some e) ⊎ ((st' : State) × (taken_from st t q ≡ some st') × (st'.taken ≡ some e))
unfolding taken_from
takes-first st (some x) q e h = inl h
takes-first st none [] e h = absurd (cc)
takes-first st none (y ∷ q) e h = inr (record st { queue = q; taken = some y }, refl, h)

-- Serve returns the first value that is sent, the error of the service that ends first or nil by
-- Shutdown: in every state that the start leads to after something has been sent, Serve has taken
-- this first value, or takes it next, without waiting.
pub run-takes :
    (es : List Event) (st : State) (e : Option Bytes)
    → run es start ≡ some st
    → first_sent es ≡ some e
    → (st.taken ≡ some e) ⊎ ((st' : State) × (step takes st ≡ some st') × (st'.taken ≡ some e))
unfolding step
run-takes es st e reached sent =
    takes-first st st.taken st.queue e (run-first es start reached ∙ sent)
