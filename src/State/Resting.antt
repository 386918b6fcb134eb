-- ===== src/State/Resting.antt =====
-- A sweep after a sweep.
use excubra.Prelude.{
  ◌≡◌, refl, sym, ap, ◌∙◌, ◌⊎◌, inl, inr, String, true, false, eq_iff, none, some, List, [], ◌∷◌,
  arith, eq_refl, str_eq, contains, Bool-cases, Option-cases,
}
use excubra.GoMap.{lookup}
use excubra.GoTime.{Time}
use excubra.Event.{Event}
use excubra.State.Types.{Box, Host, HostState, Machine, up, down}
use excubra.State.Suppress.{suppressed, in_maintenance, down_ancestor, window_covers}
use excubra.State.Reconcile.{box_hosts, reconcile_all, reconcile_box}
use excubra.State.Settle.{is_open, reported_host, announced, announces, next_report}
use excubra.State.Sweep.{
  announced_of, announced_id, announcements, reconcile_all-lookup, reconcile_all-open,
}
use excubra.State.Wellformed.{WellFormed, WellFormed-Keyed}
use excubra.State.Members.{is_of_box, box_hosts-Once, contains-box_hosts}
use excubra.State.Agreement.{reconcile_box_sweep}
use excubra.State.Invariant.{reconcile_box-WellFormed}
use excubra.State.Isolation.{reconcile_box_frame}

next_report_again : (o r : HostState) → next_report o (next_report o r) ≡ next_report o r
unfolding next_report
next_report_again up r = refl
next_report_again down r = refl
next_report_again _ r = refl

nothing_new : (o r : HostState) → announces o (next_report o r) ≡ none
unfolding announces next_report
nothing_new up r = refl
nothing_new down r = refl
nothing_new _ r = refl

open_reported :
    (m : Machine) (b : Box) (h : Host) (r : HostState)
    → is_open m b (record h { reported = r }) ≡ is_open m b h
unfolding is_open suppressed in_maintenance down_ancestor window_covers
open_reported m b h r = refl

module _ (m : Machine) (b : Box) (h : Host) where
  reported_open :
      is_open m b h ≡ true
      → reported_host m b h ≡ record h { reported = next_report h.observed h.reported }
  unfolding reported_host
  reported_open e = rw e refl

  reported_shut : is_open m b h ≡ false → reported_host m b h ≡ h
  unfolding reported_host
  reported_shut e = rw e refl

  announced_shut : (at : Time) → is_open m b h ≡ false → announced m b h at ≡ none
  unfolding announced
  announced_shut at e = rw e refl

  announced-none : (at : Time) → announces h.observed h.reported ≡ none → announced m b h at ≡ none
  unfolding announced
  announced-none at e = elim (Bool-cases (is_open m b h)) [
    | inl o ↦ rw (o, e) refl
    | inr o ↦ rw o refl
  ]

quiet_announcements :
    (m : Machine) (b : Box) (ids : List String) (at : Time)
    → ((j : String) → contains j ids ≡ true → announced_id m b j at ≡ none)
    → announcements m b ids at ≡ []
unfolding announcements
quiet_announcements m b [] at q = refl
quiet_announcements m b (j ∷ ids) at q =
    rw
      (
        q j (ground (arith, eq_refl j)),
        quiet_announcements m b ids at (λ i c. q i (ground (arith, c))),
      )
      refl

module _ (m : Machine) (box_id : String) (b : Box) (at : Time) (v : WellFormed m)
    (found : lookup box_id m.boxes ≡ some b) where
  abbrev swept : Machine
  swept = (reconcile_box m box_id at).0

  sweeps : reconcile_box m box_id at ≡ reconcile_all m b (box_hosts m box_id) at
  unfolding reconcile_box
  sweeps = rw (found, reconcile_box) refl

  swept-open : (g : Host) → is_open swept b g ≡ is_open m b g
  swept-open g =
      ap (λ (x : Machine × List Event). is_open x.0 b g) sweeps
      ∙ reconcile_all-open m b (box_hosts m box_id) at b g (WellFormed-Keyed m v)

  swept_shut : (h : Host) → is_open m b h ≡ false → is_open swept b (reported_host m b h) ≡ false
  swept_shut h e = ap (is_open swept b) (reported_shut m b h e) ∙ swept-open h ∙ e

  again_reported : (h : Host) → reported_host swept b (reported_host m b h) ≡ reported_host m b h
  again_reported h = elim (Bool-cases (is_open m b h)) [
    | inr e ↦ reported_shut swept b (reported_host m b h) (swept_shut h e)
    | inl e ↦
        let r = next_report h.observed h.reported in
        let first = reported_open m b h e in
        let still = swept-open (record h { reported = r }) ∙ open_reported m b h r ∙ e in
        ap (reported_host swept b) first
        ∙ reported_open swept b (record h { reported = r }) still
        ∙ ap (λ (x : HostState). record h { reported = x })
            (next_report_again h.observed h.reported)
        ∙ sym first
  ]

  again_announced : (h : Host) (later : Time) → announced swept b (reported_host m b h) later ≡ none
  again_announced h later = elim (Bool-cases (is_open m b h)) [
    | inr e ↦ announced_shut swept b (reported_host m b h) later (swept_shut h e)
    | inl e ↦
        let r = next_report h.observed h.reported in
        ap (λ (g : Host). announced swept b g later) (reported_open m b h e)
        ∙ announced-none swept b (record h { reported = r }) later
            (nothing_new h.observed h.reported)
  ]

  swept-lookup : (j : String) → lookup j m.hosts ≡ none → lookup j swept.hosts ≡ none
  swept-lookup j e =
      ap (λ (x : Machine × List Event). lookup j x.0.hosts) sweeps
      ∙ reconcile_all-lookup m b (box_hosts m box_id) at j (WellFormed-Keyed m v)
          (box_hosts-Once m box_id v)
      ∙ rw (contains-box_hosts m box_id j v, e) refl

  again_id :
      (later : Time) (j : String)
      → contains j (box_hosts swept box_id) ≡ true
      → announced_id swept b j later ≡ none
  again_id later j c = elim (Option-cases (lookup j m.hosts)) [
    | inl e ↦ ap (announced_of swept b later) (swept-lookup j e)
    | inr (h, e) ↦
        let after = (reconcile_box_sweep m box_id b at v found).0 j h e in
        elim (Bool-cases (str_eq h.box_id box_id)) [
          | inl mine ↦
              let here : lookup j swept.hosts ≡ some (reported_host m b h) = after ∙ rw mine refl in
              ap (announced_of swept b later) here ∙ again_announced h later
          | inr other ↦
              let here : lookup j swept.hosts ≡ some h = after ∙ rw other refl in
              cc (
                sym (
                      contains-box_hosts swept box_id j (reconcile_box-WellFormed m box_id at v)
                      ∙ ap (is_of_box box_id) here)
                    ∙ c,
                other,
              )
        ]
  ]

-- In a well-formed machine, a sweep of a stored box that is assigned reports of a host of the box that nothing suppresses, and that is observed
-- up or down, exactly what was observed, and changes nothing else of it. Another sweep after it, at whatever time, announces nothing of any host and leaves this one so.
pub reconcile_box_agrees :
    (m : Machine) (box_id : String) (b : Box) (at later : Time) (j : String) (h : Host)
    → WellFormed m
    → lookup box_id m.boxes ≡ some b
    → lookup j m.hosts ≡ some h
    → h.box_id ≡ box_id
    → is_open m b h ≡ true
    → (h.observed ≡ up) ⊎ (h.observed ≡ down)
    → (lookup j (reconcile_box m box_id at).0.hosts ≡ some (record h { reported = h.observed }))
      × ((reconcile_box (reconcile_box m box_id at).0 box_id later).1 ≡ [])
      × (lookup j (reconcile_box (reconcile_box m box_id at).0 box_id later).0.hosts
          ≡ some (record h { reported = h.observed }))
unfolding next_report
reconcile_box_agrees m box_id b at later j h v found held mine op known =
    let m1 = (reconcile_box m box_id at).0 in
    let v1 = reconcile_box-WellFormed m box_id at v in
    let found1 : lookup box_id m1.boxes ≡ some b =
      ap (λ bs. lookup box_id bs) (reconcile_box_frame m box_id at).0 ∙ found in
    let first = (reconcile_box_sweep m box_id b at v found).0 j h held in
    let (hosts, events) = reconcile_box_sweep m1 box_id b later v1 found1 in
    let ours : str_eq h.box_id box_id ≡ true = (eq_iff h.box_id box_id).1 mine in
    let here : lookup j m1.hosts ≡ some (reported_host m b h) = first ∙ rw ours refl in
    let shown : reported_host m b h ≡ record h { reported = h.observed } =
      reported_open m b h op ∙ elim known [ inl e ↦ rw e refl | inr e ↦ rw e refl ] in
    (
      here ∙ ap some shown,
      events
          ∙ quiet_announcements m1 b (box_hosts m1 box_id) later
              (again_id m box_id b at v found later),
      hosts j (record h { reported = h.observed }) (here ∙ ap some shown)
          ∙ rw ours (
              ap some (
                ap (reported_host m1 b) (sym shown)
                ∙ again_reported m box_id b at v found h
                ∙ shown)),
    )
