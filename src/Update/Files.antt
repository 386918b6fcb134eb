-- ===== src/Update/Files.antt =====
-- update.go: the files that an update touches, and the machine that it runs on. A file is named by
-- its part in the update; that these paths differ is assumed.
use excubra.Prelude.{
  ℕ, String, Bool, true, false, Option, none, some, List, if◌then◌else◌, ◌≡◌, ◌⊎◌, inl, inr, refl,
  sym, ap, ◌∙◌, Bool-cases, Option-cases, some_inj,
}
use excubra.GoTime.{Time}

-- `part` and the two `.tmp` files are where the others are written before they are renamed.
pub data File : Type 0 where
  binary : File
  candidate : File
  part : File
  previous : File
  pending_marker : File
  pending_tmp : File
  rolled_back_marker : File
  rolled_back_tmp : File

abbrev pub same_file : File → File → Bool
same_file binary binary = true
same_file candidate candidate = true
same_file part part = true
same_file previous previous = true
same_file pending_marker pending_marker = true
same_file pending_tmp pending_tmp = true
same_file rolled_back_marker rolled_back_marker = true
same_file rolled_back_tmp rolled_back_tmp = true
same_file f g = false

abbrev pub Bytes : Type 0
Bytes = List ℕ

-- What stands in each file, if it exists.
abbrev pub Disk : Type 0
Disk = File → Option Bytes

abbrev pub set : File → Option Bytes → Disk → Disk
set f c d g = if same_file f g then c else d g

pub record Pending : Type 0 where
  pub from : String
  pub to : String
  pub at : Time

-- `none`: the body broke off.
pub record Response : Type 0 where
  pub status : ℕ
  pub body : Option Bytes

-- A write that fails leaves something else, or nothing, in the file.
pub data Written : Type 0 where
  complete : Written
  broken : Option Bytes → Written

-- The machine: packages `os`, `net/http`, `crypto/sha256`, `encoding/json`, the release key, the
-- selftest of a candidate, the running version and the clock.
pub record Platform : Type 0 where
  pub version : String
  pub now : Time
  pub fetch : String → Option Response
  pub sha256 : Bytes → Bytes
  pub verify : Option (Bytes → String → Bool)
  pub trial : Option Bytes → Bool
  pub write : File → Bytes → Written
  pub rename_fails : File → File → Bool
  pub remove_fails : File → Bool
  pub marshal : Pending → Option Bytes
  pub unmarshal : Bytes → Option Pending

-- os.Rename
unfoldable pub rename : Platform → File → File → Disk → Bool × Disk
rename h f g d = elim (d f) [
  | none ↦ (false, d)
  | some c ↦ if h.rename_fails f g then (false, d) else (true, set g (some c) (set f none d))
]

-- os.Remove
unfoldable pub remove : Platform → File → Disk → Disk
remove h f d = if h.remove_fails f then d else set f none d

unfoldable pub write_executable : Platform → Bytes → Disk → Bool × Disk
write_executable h blob d = elim (h.write part blob) [
  | broken left ↦ (false, set part left d)
  | complete ↦ rename h part candidate (set part (some blob) d)
]

unfoldable pub write_json : Platform → File → File → Pending → Disk → Bool × Disk
write_json h tmp path p d = elim (h.marshal p) [
  | none ↦ (false, d)
  | some b ↦ elim (h.write tmp b) [
    | broken left ↦ (false, set tmp left d)
    | complete ↦ rename h tmp path (set tmp (some b) d)
  ]
]

pub Written-cases : (w : Written) → (w ≡ complete) ⊎ ((left : Option Bytes) × (w ≡ broken left))
Written-cases complete = inl refl
Written-cases (broken left) = inr (left, refl)

pub same_self : (f : File) → same_file f f ≡ true
same_self binary = refl
same_self candidate = refl
same_self part = refl
same_self previous = refl
same_self pending_marker = refl
same_self pending_tmp = refl
same_self rolled_back_marker = refl
same_self rolled_back_tmp = refl

-- A rename that succeeds moves the contents and touches no other file; one that fails touches none.
pub rename_cases :
    (h : Platform) (f g : File) (d : Disk)
    → (rename h f g d ≡ (false, d))
      ⊎ ((c : Bytes) × (d f ≡ some c) × (rename h f g d ≡ (true, set g (some c) (set f none d))))
unfolding rename
rename_cases h f g d = elim (Option-cases (d f)) [
  | inl e ↦ inl (rw (e, rename))
  | inr (c, e) ↦ elim (Bool-cases (h.rename_fails f g)) [
    | inl bad ↦ inl (rw (e, bad, rename))
    | inr good ↦ inr (c, e, rw (e, good, rename))
  ]
]

-- A rename that the machine does not refuse succeeds.
pub rename_lem :
    (h : Platform) (f g : File) (d : Disk) (c : Bytes)
    → d f ≡ some c
    → h.rename_fails f g ≡ false
    → rename h f g d ≡ (true, set g (some c) (set f none d))
unfolding rename
rename_lem h f g d c e good = rw (e, good, rename)

pub remove_spares :
    (h : Platform) (f g : File) (d : Disk) → same_file f g ≡ false → remove h f d g ≡ d g
unfolding remove
remove_spares h f g d ne = elim (Bool-cases (h.remove_fails f)) [
  | inl e ↦ rw e
  | inr e ↦ rw (e, ne)
]

-- Only the candidate and the file beside it change; if all goes well the candidate is the blob.
pub write_executable_cases :
    (h : Platform) (blob : Bytes) (d : Disk)
    → ((left : Option Bytes) × (write_executable h blob d ≡ (false, set part left d)))
      ⊎ (write_executable h blob d
          ≡ (true, set candidate (some blob) (set part none (set part (some blob) d))))
unfolding write_executable
write_executable_cases h blob d = elim (Written-cases (h.write part blob)) [
  | inr (left, e) ↦ inl (left, rw (e, write_executable))
  | inl e ↦ elim (rename_cases h part candidate (set part (some blob) d)) [
    | inl same ↦ inl (some blob, rw (e, same, write_executable))
    | inr (c, here, moved) ↦
        let blob_there : some c ≡ some blob = sym here in
        inr (rw (e, moved, some_inj blob_there, write_executable))
  ]
]

-- Only the marker and the file beside it change; if all goes well the marker is the record.
pub write_json_cases :
    (h : Platform) (tmp path : File) (p : Pending) (d : Disk)
    → (write_json h tmp path p d ≡ (false, d))
      ⊎ (((left : Option Bytes) × (write_json h tmp path p d ≡ (false, set tmp left d)))
          ⊎ ((b : Bytes) × (h.marshal p ≡ some b)
              × (write_json h tmp path p d
                  ≡ (true, set path (some b) (set tmp none (set tmp (some b) d))))))
unfolding write_json
write_json_cases h tmp path p d = elim (Option-cases (h.marshal p)) [
  | inl e ↦ inl (rw (e, write_json))
  | inr (b, e) ↦ elim (Written-cases (h.write tmp b)) [
    | inr (left, bad) ↦ inr (inl (left, rw (e, bad, write_json)))
    | inl good ↦ elim (rename_cases h tmp path (set tmp (some b) d)) [
      | inl same ↦ inr (inl (some b, rw (e, good, same, write_json)))
      | inr (c, here, moved) ↦
          let there : some c ≡ some b =
            sym here ∙ ap (λ t. if t then some b else d tmp) (same_self tmp) in
          inr (inr (b, e, rw (e, good, moved, some_inj there, write_json)))
    ]
  ]
]
