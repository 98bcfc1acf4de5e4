-- ===== src/Dhcp6/Options/Termination.antt =====
-- The loop of UnmarshalOptions in dhcp6/options.go ends.
use netboot.Prelude.{
  ℕ, zero, suc, ◌-◌, ◌%◌, ◌≤◌, ◌<◌, ◌≡◌, ◌≢◌, refl, ap, arith, [], ◌∷◌, Bytes, length, length-take,
  drop, if_ind, leb, ◌&&◌, ltb, ◌==◌,
}
use netboot.Dhcp6.Slice.{
  Outcome, returned, failed, panicked, ◌>>=◌, Slice, len, backing, cut, sub, from, first_two,
  big_endian16, sub_returned,
}
use netboot.Dhcp6.Options.{
  Options, OptionsError, out_of_fuel, opt_oro, end_of, check_length, unmarshal_option,
  unmarshal_loop, unmarshal_options,
}

-- What every step of the loop keeps to.
Ends : {A : Type 0} → Outcome OptionsError A → Type 0
Ends r = r ≢ failed out_of_fuel

bind-Ends :
    {A B : Type 0} (m : Outcome OptionsError A) (k : A → Outcome OptionsError B)
    → Ends m
    → ((a : A) → m ≡ returned a → Ends (k a))
    → Ends (m >>= k)
unfolding Ends
bind-Ends (returned a) k h g = g a refl
bind-Ends {B = B} (failed x) k h g = λ e. h (ap (λ y. failed y) (ap error_of e))
  where
    error_of : Outcome OptionsError B → OptionsError
    error_of (returned b) = x
    error_of (failed y) = y
    error_of panicked = x
bind-Ends panicked k h g = λ e. cc

returned-Ends : {A : Type 0} (a : A) → Ends (returned a)
unfolding Ends
returned-Ends a = λ e. cc

sub-Ends : (s : Slice) (lo hi : ℕ) → Ends (sub s lo hi)
unfolding sub Ends
sub-Ends s lo hi =
    if_ind (λ (r : Outcome OptionsError Slice). Ends r) (leb lo hi && leb hi (length (backing s))) _
      _ (λ _ e. cc) (λ _ e. cc)

big_endian16-Ends : (s : Slice) → Ends (big_endian16 s)
unfolding big_endian16 Ends
big_endian16-Ends s = go s.visible
  where
    go : (v : Bytes) → Ends (first_two v)
    go [] = λ e. cc
    go (a ∷ []) = λ e. cc
    go (a ∷ b ∷ v) = λ e. cc

check_length-Ends : (s : Slice) (id n : ℕ) → Ends (check_length s id n)
unfolding check_length Ends from
check_length-Ends s id n =
    if_ind (λ (r : Outcome OptionsError (Unit {0})). Ends r) (id == opt_oro) _ _
      (λ _.
        if_ind (λ (r : Outcome OptionsError (Unit {0})). Ends r) (n % 2 == 0) _ _ (λ _ e. cc)
          (λ _ e. cc))
      (λ _. bind-Ends (sub s 4 (len s)) _ (sub-Ends s 4 (len s)) (λ payload _.
        if_ind (λ (r : Outcome OptionsError (Unit {0})). Ends r) (ltb (len payload) n) _ _
          (λ _ e. cc) (λ _ e. cc)))

unmarshal_option-Ends : (s : Slice) → Ends (unmarshal_option s)
unfolding unmarshal_option
unmarshal_option-Ends s = bind-Ends (sub s 2 4) _ (sub-Ends s 2 4) (λ l _.
    bind-Ends (big_endian16 l) _ (big_endian16-Ends l) (λ n _.
      bind-Ends (sub s 0 2) _ (sub-Ends s 0 2) (λ i _.
        bind-Ends (big_endian16 i) _ (big_endian16-Ends i) (λ id _.
          bind-Ends (check_length s id n) _ (check_length-Ends s id n) (λ u _.
            bind-Ends (sub s 4 (end_of n)) _ (sub-Ends s 4 (end_of n)) (λ v _. returned-Ends _))))))

-- What is left after an option is shorter by its header at least.
rest_shorter :
    (s value rest : Slice) (end : ℕ)
    → sub {E = OptionsError} s 4 end ≡ returned value
    → from {E = OptionsError} s end ≡ returned rest
    → len rest < len s
unfolding from
rest_shorter s value rest end hv hr =
    let (low, _, _) = sub_returned s 4 end value hv in
    let (within, _, e) = sub_returned s end (len s) rest hr in
    let cut_length : len rest ≡ len (cut s end (len s)) = ap (λ x. len x) e in
    omega (arith, cut_length, length-take (len s - end) (drop end (backing s)))

unmarshal_loop-Ends :
    (fuel : ℕ) (s : Slice) (m : Options) → len s ≤ fuel → Ends (unmarshal_loop fuel s m)
unfolding unmarshal_loop Ends
unmarshal_loop-Ends zero s m h =
    if_ind (λ (r : Outcome OptionsError Options). Ends r) (len s == 0) _ _ (λ _ e. cc)
      (λ f. absurd (ground arith))
unmarshal_loop-Ends (suc fuel) s m h =
    if_ind (λ (r : Outcome OptionsError Options). Ends r) (len s == 0) _ _ (λ _ e. cc)
      (λ _. bind-Ends (unmarshal_option s) _ (unmarshal_option-Ends s) (λ o _.
        bind-Ends (sub s 4 (end_of o.length)) _ (sub-Ends s 4 (end_of o.length)) (λ value hv.
          bind-Ends (from s (end_of o.length)) _
            (unfold from in sub-Ends s (end_of o.length) (len s))
            (λ rest hr.
              let less : len rest < len s = rest_shorter s value rest (end_of o.length) hv hr in
              unmarshal_loop-Ends fuel rest _ (omega arith)))))

-- Reading the options of a packet ends on every input.
pub unmarshal_options-ne-out_of_fuel : (s : Slice) → unmarshal_options s ≢ failed out_of_fuel
unfolding unmarshal_options Ends
unmarshal_options-ne-out_of_fuel s = unmarshal_loop-Ends (len s) s [] (omega arith)
