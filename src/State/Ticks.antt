-- ===== src/State/Ticks.antt =====
-- What a tick makes of the boxes and the windows, and that a second one has nothing to add.
use excubra.Prelude.{
  ◌≡◌, refl, sym, ap, ◌∙◌, inl, inr, String, true, false, Option, none, some, List, [], ◌∷◌, map,
  arith, eq_iff, str_eq, if◌then◌else◌, contains, Once, Once-sort, contains-sort, All, sort_by-All,
  Bool-cases, Option-cases, >>=-eq-some, some_inj,
}
use mathlib.Core.Option
use excubra.GoMap.{Map, lookup, values, lookup-erase, Entries}
use excubra.GoMap.Named.{Found, Named, is_some, contains-values, Once-values, values-Found}
use excubra.GoTime.{Time, after}
use excubra.Event.{Event}
use excubra.State.Types.{Box, Maintenance, Machine}
use excubra.State.Inputs.{
  drop_window, expire, silence_box, silence_boxes, reconcile_touched, sorted_boxes, sorted_maint,
  tick, touch,
}
use excubra.State.Wellformed.{WellFormed, BoxEntry}
use excubra.State.Totality.{expire-WellFormed}
use excubra.State.Isolation.{reconcile_touched_frame}
use excubra.State.Silence.{
  silenced, box_ids, Current, Current-step, silence_box_lookup, silence_box_rest,
}

boxes_lem :
    (m m' : Machine) (bs : List Box) (at : Time) (evs : List Event) (k : String)
    → silence_boxes m bs at ≡ some (m', evs)
    → Once (box_ids bs)
    → Current m bs
    → lookup k m'.boxes ≡ (
        if contains k (box_ids bs)
        then Option.map (silenced at) (lookup k m.boxes)
        else lookup k m.boxes)
unfolding silence_boxes
boxes_lem m m' [] at evs k e once cur =
    ap (λ (r : Option (Machine × List Event)). lookup k (Option.get_or r (m, [])).0.boxes) (sym e)
boxes_lem m m' (b ∷ bs) at evs k e once cur =
    let (p1, s, e1) = >>=-eq-some (silence_box m b at) _ e in
    let (p2, t, e2) = >>=-eq-some (silence_boxes p1.0 bs at) _ e1 in
    let last : p2.0 ≡ m' = ap (λ (r : Machine × List Event). r.0) (some_inj e2) in
    let step = silence_box_lookup m p1.0 b at p1.1 s k cur.0 in
    sym (ap (λ (x : Machine). lookup k x.boxes) last)
    ∙ boxes_lem p1.0 p2.0 bs at p2.1 k t once.1
        (Current-step m p1.0 b at p1.1 bs s cur.0 once.0 cur.1)
    ∙ elim (Bool-cases (str_eq b.id k)) [
      | inl hit ↦
          let absent : contains k (box_ids bs) ≡ false =
            ap (λ (i : String). contains i (box_ids bs)) (sym ((eq_iff b.id k).0 hit)) ∙ once.0 in
          rw (hit, absent)
            (step
              ∙ rw hit (
                  ap (Option.map (silenced at)) (
                    sym (
                      ap (λ (i : String). lookup i m.boxes) (sym ((eq_iff b.id k).0 hit))
                      ∙ cur.0))))
      | inr miss ↦ rw miss (rw step (rw miss))
    ]

boxes_rest :
    (m m' : Machine) (bs : List Box) (at : Time) (evs : List Event)
    → silence_boxes m bs at ≡ some (m', evs)
    → (m'.hosts ≡ m.hosts) × (m'.maint ≡ m.maint)
unfolding silence_boxes
boxes_rest m m' [] at evs e =
    let same : m ≡ m' = ap (λ (r : Machine × List Event). r.0) (some_inj e) in
    (ap (λ (x : Machine). x.hosts) (sym same), ap (λ (x : Machine). x.maint) (sym same))
boxes_rest m m' (b ∷ bs) at evs e =
    let (p1, s, e1) = >>=-eq-some (silence_box m b at) _ e in
    let (p2, t, e2) = >>=-eq-some (silence_boxes p1.0 bs at) _ e1 in
    let last : p2.0 ≡ m' = ap (λ (r : Machine × List Event). r.0) (some_inj e2) in
    let (h1, w1) = silence_box_rest m p1.0 b at p1.1 s in
    let (h2, w2) = boxes_rest p1.0 p2.0 bs at p2.1 t in
    (
      ap (λ (x : Machine). x.hosts) (sym last) ∙ h2 ∙ h1,
      ap (λ (x : Machine). x.maint) (sym last) ∙ w2 ∙ w1,
    )

-- A window after the loop that ends those whose time has come.
abbrev pub running : Time → Option Maintenance → Option Maintenance
running at none = none
running at (some w) = if after w.until at then some w else none

abbrev pub window_ids : List Maintenance → List String
window_ids = map (λ w. w.id)

expire_frame :
    (m : Machine) (ws : List Maintenance) (at : Time) (touched : List String)
    → ((expire m ws at touched).0.boxes ≡ m.boxes) × ((expire m ws at touched).0.hosts ≡ m.hosts)
unfolding expire drop_window
expire_frame m [] at touched = (refl, refl)
expire_frame m (w ∷ ws) at touched = elim (Bool-cases (after w.until at)) [
  | inl e ↦ rw (e, expire) (expire_frame m ws at touched)
  | inr e ↦
      rw (e, expire)
        (expire_frame (drop_window m w) ws at (touch (drop_window m w) w (values m.hosts) touched))
]

abbrev pub FoundIn : Machine → List Maintenance → Type 0
FoundIn m = All (Found (λ w. w.id) m.maint)

FoundIn-drop :
    (m : Machine) (w : Maintenance) (ws : List Maintenance)
    → contains w.id (window_ids ws) ≡ false
    → FoundIn m ws
    → FoundIn (drop_window m w) ws
unfolding drop_window
FoundIn-drop m w [] c f = tt
FoundIn-drop m w (x ∷ ws) c f =
    let apart : str_eq w.id x.id ≡ false = ground (arith, eq_iff w.id x.id, eq_iff x.id w.id) in
    (lookup-erase w.id x.id m.maint ∙ rw apart f.0, FoundIn-drop m w ws (ground arith) f.1)

absent_rest :
    (w : Maintenance) (k : String) (ws : List Maintenance)
    → str_eq w.id k ≡ true
    → contains w.id (window_ids ws) ≡ false
    → contains k (window_ids ws) ≡ false
absent_rest w k ws hit c =
    ap (λ (i : String). contains i (window_ids ws)) (sym ((eq_iff w.id k).0 hit)) ∙ c

expire_lem :
    (m : Machine) (ws : List Maintenance) (at : Time) (touched : List String) (k : String)
    → Once (window_ids ws)
    → FoundIn m ws
    → lookup k (expire m ws at touched).0.maint
      ≡ (if contains k (window_ids ws) then running at (lookup k m.maint) else lookup k m.maint)
unfolding expire drop_window
expire_lem m [] at touched k once f = refl
expire_lem m (w ∷ ws) at touched k once f =
    let own = λ (hit : str_eq w.id k ≡ true).
      ap (λ (i : String). lookup i m.maint) (sym ((eq_iff w.id k).0 hit)) ∙ f.0 in
    elim (Bool-cases (after w.until at)) [
      | inl e ↦
          rw (e, expire)
            (expire_lem m ws at touched k once.1 f.1 ∙ elim (Bool-cases (str_eq w.id k)) [
              | inl hit ↦ rw (hit, absent_rest w k ws hit once.0, own hit) (rw e)
              | inr miss ↦ rw miss
            ])
      | inr e ↦
          rw (e, expire)
            (expire_lem (drop_window m w) ws at (touch (drop_window m w) w (values m.hosts) touched)
                k once.1 (FoundIn-drop m w ws once.0 f.1)
              ∙ rw (lookup-erase w.id k m.maint) (elim (Bool-cases (str_eq w.id k)) [
                | inl hit ↦ rw (hit, absent_rest w k ws hit once.0, own hit) (rw e)
                | inr miss ↦ rw miss
              ]))
    ]

boxes-Named : (boxes : Map Box) → Entries BoxEntry boxes → Named (λ b. b.id) boxes
boxes-Named [] e = tt
boxes-Named ((k, b) ∷ boxes) e = (e.0.0, boxes-Named boxes e.1)

-- The sorted snapshots that a tick goes through hold every entry once.
module _ (m : Machine) (v : WellFormed m) where
  boxes_Once : Once (box_ids (sorted_boxes m))
  boxes_Once =
      Once-sort (λ b. b.id) _ (values m.boxes)
        (Once-values (λ b. b.id) m.boxes v.boxes_unique (boxes-Named m.boxes v.boxes_entries))

  pub boxes_Current : Current m (sorted_boxes m)
  boxes_Current =
      sort_by-All (Found (λ b. b.id) m.boxes) _ (values m.boxes)
        (values-Found (λ b. b.id) m.boxes v.boxes_unique (boxes-Named m.boxes v.boxes_entries))

  contains-boxes : (k : String) → contains k (box_ids (sorted_boxes m)) ≡ is_some (lookup k m.boxes)
  contains-boxes k =
      contains-sort (λ b. b.id) _ k (values m.boxes)
      ∙ contains-values (λ b. b.id) k m.boxes v.boxes_unique (boxes-Named m.boxes v.boxes_entries)

  windows_Once : Once (window_ids (sorted_maint m))
  windows_Once =
      Once-sort (λ w. w.id) _ (values m.maint)
        (Once-values (λ w. w.id) m.maint v.maint_unique v.maint_entries)

  pub windows_Found : FoundIn m (sorted_maint m)
  windows_Found =
      sort_by-All (Found (λ w. w.id) m.maint) _ (values m.maint)
        (values-Found (λ w. w.id) m.maint v.maint_unique v.maint_entries)

  contains-windows :
      (k : String) → contains k (window_ids (sorted_maint m)) ≡ is_some (lookup k m.maint)
  contains-windows k =
      contains-sort (λ w. w.id) _ k (values m.maint)
      ∙ contains-values (λ w. w.id) k m.maint v.maint_unique v.maint_entries

  expire_all :
      (at : Time) (k : String)
      → lookup k (expire m (sorted_maint m) at []).0.maint ≡ running at (lookup k m.maint)
  expire_all at k =
      expire_lem m (sorted_maint m) at [] k windows_Once windows_Found
      ∙ rw (contains-windows k)
          (elim (Option-cases (lookup k m.maint)) [ inl e ↦ rw e | inr (w, e) ↦ rw e ])

  silence_all :
      (m' : Machine) (at : Time) (evs : List Event) (k : String)
      → silence_boxes m (sorted_boxes m) at ≡ some (m', evs)
      → lookup k m'.boxes ≡ Option.map (silenced at) (lookup k m.boxes)
  silence_all m' at evs k e =
      boxes_lem m m' (sorted_boxes m) at evs k e boxes_Once boxes_Current
      ∙ rw (contains-boxes k)
          (elim (Option-cases (lookup k m.boxes)) [ inl n ↦ rw n | inr (b, s) ↦ rw s ])

-- A tick for all boxes and windows at once.
pub tick_lookups :
    (m m' : Machine) (at : Time) (evs : List Event)
    → WellFormed m
    → tick m at ≡ some (m', evs)
    → ((k : String) → lookup k m'.boxes ≡ Option.map (silenced at) (lookup k m.boxes))
      × ((k : String) → lookup k m'.maint ≡ running at (lookup k m.maint))
unfolding tick
tick_lookups m m' at evs v e =
    let expired = expire m (sorted_maint m) at [] in
    let v1 = expire-WellFormed m (sorted_maint m) at [] v in
    let frame = expire_frame m (sorted_maint m) at [] in
    let (p, s, e1) = >>=-eq-some (silence_boxes expired.0 (sorted_boxes expired.0) at) _ e in
    let last : (reconcile_touched p.0 expired.2 at).0 ≡ m' =
      ap (λ (r : Machine × List Event). r.0) (some_inj e1) in
    let kept = reconcile_touched_frame p.0 expired.2 at in
    (
      λ k.
          sym (ap (λ (x : Machine). lookup k x.boxes) last)
          ∙ ap (lookup k) kept.0
          ∙ silence_all expired.0 v1 p.0 at p.1 k s
          ∙ ap (λ (x : Map Box). Option.map (silenced at) (lookup k x)) frame.0,
      λ k.
          sym (ap (λ (x : Machine). lookup k x.maint) last)
          ∙ ap (lookup k) (kept.1 ∙ (boxes_rest expired.0 p.0 (sorted_boxes expired.0) at p.1 s).1)
          ∙ expire_all m v at k,
    )

-- A tick of a well-formed machine that returns makes every overdue box silent and leaves the other
-- boxes alone; it ends every window whose time has come and keeps the others.
pub tick_table :
    (m m' : Machine) (at : Time) (evs : List Event) (k : String)
    → WellFormed m
    → tick m at ≡ some (m', evs)
    → (lookup k m'.boxes ≡ Option.map (silenced at) (lookup k m.boxes))
      × (lookup k m'.maint ≡ running at (lookup k m.maint))
tick_table m m' at evs k v e =
    let (boxes, windows) = tick_lookups m m' at evs v e in (boxes k, windows k)
