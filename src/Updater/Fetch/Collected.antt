-- ===== src/Updater/Fetch/Collected.antt =====
-- What fetch of updater.go reports of its updaters.
use clair.VulnSrc.Source.{UpdateResponse}
use clair.Updater.Fetch.{
  updater_enabled, Updater, Fetched, nothing_fetched, set_flag, add_response, collect_responses,
  Appender, fetch,
}
use clair.Prelude.{
  Bytes, bytes_eq, Bool, true, false, not, ◌||◌, ◌&&◌, List, [], ◌∷◌, all, In, All, All-put,
  is_empty, if◌then◌else◌, if_either, MapOrder, Outcome, ok, err, panic, hang, >>=-ok, ◌≡◌, refl,
  sym, ap, ◌∙◌, subst, arith, inl, inr,
}

abbrev answers : {E : Type 0} → Outcome E UpdateResponse → Bool
answers (ok _) = true
answers (err _) = false
answers panic = false
answers hang = false

same_fetched : {E : Type 0} {f g : Fetched} {m : Outcome E Fetched} → m ≡ ok f → m ≡ ok g → f ≡ g
same_fetched d e = cc

set_flag-All :
    (P : Bytes → Bytes → Type 0) (resp : UpdateResponse) (flags : List (Bytes × Bytes))
    → P resp.flag_name resp.flag_value
    → All (λ (x : Bytes × Bytes). P x.0 x.1) flags
    → All (λ (x : Bytes × Bytes). P x.0 x.1) (set_flag resp flags)
set_flag-All P resp flags p h =
    if_either (All (λ (x : Bytes × Bytes). P x.0 x.1))
      (is_empty resp.flag_name || is_empty resp.flag_value) h
      (All-put P resp.flag_name resp.flag_value flags h p)

module _ {Store E : Type 0} (enabled : List Bytes) (store : Store) where
  -- Every updater that is enabled answers without an error.
  abbrev pub all_answer : List (Bytes × Updater Store E) → Bool
  all_answer updaters =
      all
        (λ (x : Bytes × Updater Store E). not (updater_enabled enabled x.0) || answers (x.1 store))
        updaters

  -- The flag is that of a response of an updater that is enabled.
  abbrev pub IsFlag : List (Bytes × Updater Store E) → Bytes → Bytes → Type 0
  IsFlag updaters key value =
      (updater_name : Bytes) × (update : Updater Store E) × (resp : UpdateResponse) × In
        (updater_name, update) updaters
      × (updater_enabled enabled updater_name ≡ true)
      × (update store ≡ ok resp)
      × (resp.flag_name ≡ key)
      × (resp.flag_value ≡ value)

module _ {Store E : Type 0} (o : MapOrder) (enabled : List Bytes) (store : Store) where
  response_status :
      (b : Bool) (m : Outcome E UpdateResponse) (f next : Fetched)
      → (if b then add_response o m f else ok f) ≡ ok next
      → next.status ≡ (f.status && (not b || answers m))
  unfolding add_response
  response_status false m f next e =
      ap (λ (g : Fetched). g.status) (sym (same_fetched refl e)) ∙ (ground arith)
  response_status true (ok resp) f next e =
      ap (λ (g : Fetched). g.status) (sym (same_fetched refl e)) ∙ (ground arith)
  response_status true (err _) f next e =
      ap (λ (g : Fetched). g.status) (sym (same_fetched refl e)) ∙ (ground arith)
  response_status true panic f next e = absurd (cc)
  response_status true hang f next e = absurd (cc)

  collect_responses-status :
      (updaters : List (Bytes × Updater Store E)) (f found : Fetched)
      → collect_responses o enabled store updaters f ≡ ok found
      → found.status ≡ (f.status && all_answer enabled store updaters)
  unfolding collect_responses
  collect_responses-status [] f found e =
      ap (λ (g : Fetched). g.status) (sym (same_fetched refl e)) ∙ (ground arith)
  collect_responses-status ((updater_name, update) ∷ updaters) f found e =
      let (next, x, y) =
        >>=-ok
          (if updater_enabled enabled updater_name then add_response o (update store) f else ok f) _
          found e in
      let step = response_status (updater_enabled enabled updater_name) (update store) f next x in
      let rest = collect_responses-status updaters next found y in rest ∙ rw step (ground arith)

  response_flags :
      (P : Bytes → Bytes → Type 0) (b : Bool) (m : Outcome E UpdateResponse) (f next : Fetched)
      → ((resp : UpdateResponse) → b ≡ true → m ≡ ok resp → P resp.flag_name resp.flag_value)
      → (if b then add_response o m f else ok f) ≡ ok next
      → All (λ (x : Bytes × Bytes). P x.0 x.1) f.flags
      → All (λ (x : Bytes × Bytes). P x.0 x.1) next.flags
  unfolding add_response
  response_flags P false m f next p e h =
      subst (λ (g : Fetched). All (λ (x : Bytes × Bytes). P x.0 x.1) g.flags) (same_fetched refl e)
        h
  response_flags P true (ok resp) f next p e h =
      subst (λ (g : Fetched). All (λ (x : Bytes × Bytes). P x.0 x.1) g.flags) (same_fetched refl e)
        (set_flag-All P resp f.flags (p resp refl refl) h)
  response_flags P true (err _) f next p e h =
      subst (λ (g : Fetched). All (λ (x : Bytes × Bytes). P x.0 x.1) g.flags) (same_fetched refl e)
        h
  response_flags P true panic f next p e h = absurd (cc)
  response_flags P true hang f next p e h = absurd (cc)

  -- The flags stay those of updaters among all, by induction on those that are left.
  collect_responses-flags :
      (all_updaters updaters : List (Bytes × Updater Store E)) (f found : Fetched)
      → ((x : Bytes × Updater Store E) → In x updaters → In x all_updaters)
      → collect_responses o enabled store updaters f ≡ ok found
      → All (λ (x : Bytes × Bytes). IsFlag enabled store all_updaters x.0 x.1) f.flags
      → All (λ (x : Bytes × Bytes). IsFlag enabled store all_updaters x.0 x.1) found.flags
  unfolding collect_responses
  collect_responses-flags all_updaters [] f found i e h =
      subst
        (λ (g : Fetched).
          All (λ (x : Bytes × Bytes). IsFlag enabled store all_updaters x.0 x.1) g.flags)
        (same_fetched refl e) h
  collect_responses-flags all_updaters ((updater_name, update) ∷ updaters) f found i e h =
      let (next, x, y) =
        >>=-ok
          (if updater_enabled enabled updater_name then add_response o (update store) f else ok f) _
          found e in
      collect_responses-flags all_updaters updaters next found (λ z j. i z (inr j)) y
        (response_flags (IsFlag enabled store all_updaters) (updater_enabled enabled updater_name)
          (update store) f next
          (λ resp b m.
            (updater_name, update, resp, i (updater_name, update) (inl refl), b, m, refl, refl))
          x h)

  -- When fetch returns, its success says whether every updater that is enabled has answered without an
  -- error, and each flag is the flag of a response of an updater that is enabled.
  pub fetch-Collected :
      (updaters : List (Bytes × Updater Store E)) (appenders : List (Appender Store))
      (found : Fetched)
      → fetch o enabled updaters appenders store ≡ ok found
      → (found.status ≡ all_answer enabled store updaters)
        × All (λ (x : Bytes × Bytes). IsFlag enabled store updaters x.0 x.1) found.flags
  unfolding fetch
  fetch-Collected updaters appenders found e =
      let (f, x, y) =
        >>=-ok (collect_responses o enabled store updaters nothing_fetched) _ found e in
      let same = same_fetched refl y in
      (
        ap (λ (g : Fetched). g.status) (sym same)
            ∙ collect_responses-status updaters nothing_fetched f x,
        subst
            (λ (g : Fetched).
              All (λ (z : Bytes × Bytes). IsFlag enabled store updaters z.0 z.1) g.flags)
            same (collect_responses-flags updaters updaters nothing_fetched f (λ z j. j) x tt),
      )
