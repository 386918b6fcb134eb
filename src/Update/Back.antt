-- ===== src/Update/Back.antt =====
-- From an update that was never confirmed back to the binary that ran before.
use excubra.Prelude.{◌≡◌, refl, ◌∙◌, true, false, none, some, ltb_ℤ, pos, String}
use excubra.GoTime.{Time, time_sub}
use excubra.Update.Files.{
  File, binary, previous, pending_marker, rolled_back_marker, rolled_back_tmp, Bytes, Disk, set,
  complete, Pending, Platform, remove, write_json, rename_lem, same_self,
}
use excubra.Update.Install.{
  UpdateInfo, restart, nothing, confirm_within, apply, pending, confirm, rollback,
  rollback_if_stale, rolled_back,
}
use excubra.Update.Outcomes.{apply_installs, marker_of}

-- A machine on which the file system refuses nothing and the record of an update, once written,
-- reads back.
pub record Sound (h : Platform) (p : Pending) : Type 0 where
  pub writes : (f : File) (b : Bytes) → h.write f b ≡ complete
  pub renames : (f g : File) → h.rename_fails f g ≡ false
  pub removes : (f : File) → h.remove_fails f ≡ false
  pub marshals : (b : Bytes) × (h.marshal p ≡ some b)
  pub reads_back : (b : Bytes) → h.marshal p ≡ some b → h.unmarshal b ≡ some p

write_json_lem :
    (h : Platform) (tmp path : File) (p : Pending) (d : Disk)
    → Sound h p
    → (b : Bytes) × (h.marshal p ≡ some b)
      × (write_json h tmp path p d ≡ (true, set path (some b) (set tmp none (set tmp (some b) d))))
unfolding write_json
write_json_lem h tmp path p d s =
    let (b, m) = s.marshals in
    (
      b,
      m,
      rw (m, s.writes, write_json)
          (rename_lem h tmp path (set tmp (some b) d) b (rw same_self refl) (s.renames tmp path)),
    )

remove_lem :
    (h : Platform) (p : Pending) (f : File) (d : Disk) → Sound h p → remove h f d ≡ set f none d
unfolding remove
remove_lem h p f d s = rw (s.removes f)

rollback_files :
    (h : Platform) (p : Pending) (d : Disk) (c : Bytes)
    → Sound h p
    → d previous ≡ some c
    → (b : Bytes) × (h.marshal p ≡ some b)
      × (rollback h p d ≡ (
        restart,
        set rolled_back_marker (some b) (
            set rolled_back_tmp none (
              set rolled_back_tmp
                (some b)
                (set pending_marker none (set binary (some c) (set previous none d))))),
      ))
unfolding rollback
rollback_files h p d c s e =
    let d1 : Disk = set binary (some c) (set previous none d) in
    let (b, m, w) =
      write_json_lem h rolled_back_tmp rolled_back_marker p (set pending_marker none d1) s in
    (
      b,
      m,
      rw
          (
            e,
            rename_lem h previous binary d c e (s.renames previous binary),
            remove_lem h p pending_marker d1 s,
            w,
            rollback,
          )
          refl,
    )

rollback_lem :
    (h : Platform) (p : Pending) (d : Disk) (c : Bytes)
    → Sound h p
    → d previous ≡ some c
    → ((rollback h p d).0 ≡ restart)
      × ((rollback h p d).1 binary ≡ some c)
      × (pending h (rollback h p d).1 ≡ none)
      × ((rolled_back h (rollback h p d).1).0 ≡ some p)
      × ((rolled_back h (rolled_back h (rollback h p d).1).1).0 ≡ none)
unfolding rolled_back pending
rollback_lem h p d c s e =
    let (b, m, r) = rollback_files h p d c s e in
    let reads = s.reads_back b m in
    rw (r, reads, remove_lem, s, rolled_back) (refl, refl, refl, refl, refl)

stale_rolls_back :
    (h : Platform) (p : Pending) (d : Disk)
    → pending h d ≡ some p
    → ltb_ℤ (time_sub h.now p.at) (pos confirm_within) ≡ false
    → rollback_if_stale h d ≡ rollback h p d
unfolding rollback_if_stale
stale_rolls_back h p d waits late = rw (waits, late, rollback_if_stale) refl

-- On a machine that refuses nothing and reads the marker back as it was written, an update that was installed and is not confirmed within
-- five minutes is taken back by the next check: the binary is what ran before the update, nothing is
-- pending, and the two versions are reported once as rolled back.
pub stale_update_returns :
    (h : Platform) (info : UpdateInfo) (d : Disk) (c : Bytes) (version : String) (t : Time)
    → Sound h (marker_of h info)
    → d binary ≡ some c
    → (apply h info d).0 ≡ restart
    → ltb_ℤ (time_sub t h.now) (pos confirm_within) ≡ false
    → let later : Platform = record h { version = version; now = t } in
      let (outcome, disk) = rollback_if_stale later (apply h info d).1 in
      let (report, told) = rolled_back later disk in
      (outcome ≡ restart)
      × (disk binary ≡ some c)
      × (pending later disk ≡ none)
      × (report ≡ some (marker_of h info))
      × ((rolled_back later told).0 ≡ none)
unfolding pending
stale_update_returns h info d c version t s ran done late =
    let later : Platform = record h { version = version; now = t } in
    let s' : Sound later (marker_of h info) = record {
      writes = s.writes;
      renames = s.renames;
      removes = s.removes;
      marshals = s.marshals;
      reads_back = s.reads_back;
    } in
    let (blob, clear, trial, now, aside, b, m, marked) = apply_installs h info d done in
    let reads = s.reads_back b m in
    let waits : pending later (apply h info d).1 ≡ some (marker_of h info) =
      rw (marked, reads, pending) refl in
    rw (stale_rolls_back later (marker_of h info) (apply h info d).1 waits late)
      (rollback_lem later (marker_of h info) (apply h info d).1 c s' (aside ∙ ran))

-- A confirmed update stays: if its marker can be removed, no later check takes it back.
pub confirmed_stays :
    (h : Platform) (d : Disk)
    → h.remove_fails pending_marker ≡ false
    → (rollback_if_stale h (confirm h d) ≡ (nothing, confirm h d)) × (confirm h d binary ≡ d binary)
unfolding rollback_if_stale pending confirm remove
confirmed_stays h d ok =
    let gone : pending h (confirm h d) ≡ none = rw (ok, confirm) refl in
    (rw (gone, rollback_if_stale) refl, rw (ok, confirm) refl)
