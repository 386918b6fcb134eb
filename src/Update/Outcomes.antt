-- ===== src/Update/Outcomes.antt =====
-- How `Apply` can end, and what it leaves in the files.
use text.Mathlib.Text.{starts_with}
use excubra.Prelude.{
  ◌≡◌, ◌≢◌, ◌⊎◌, inl, inr, refl, sym, ap, subst, ◌∙◌, Bool, true, false, none, some, String,
  Bool-cases, Option-cases, some_inj,
}
use excubra.Version.{Semver, parse, current}
use excubra.Update.Files.{
  binary, candidate, part, previous, pending_marker, pending_tmp, Bytes, Disk, set, Pending,
  Platform, remove, rename_cases, rename_lem, remove_spares, write_executable_cases,
  write_json_cases,
}
use excubra.Update.Install.{
  UpdateInfo, restart, refused, marker_failed, Outcome, Verdict, stop, proceed, newer,
  checksum_matches, check_blob, check_source, check, download, same_version, swap, swap_in, install,
  apply,
}

-- What an update's metadata and blob pass before a file is touched.
pub record Cleared (h : Platform) (info : UpdateInfo) (blob : Bytes) : Type 0 where
  pub target : Semver
  pub parsed : parse info.version ≡ some target
  pub forward : newer target (current h.version) ≡ true
  pub secure : starts_with info.url "https://" ≡ true
  pub loaded : download h info.url ≡ some blob
  pub intact : checksum_matches h info blob ≡ true
  pub verify : Bytes → String → Bool
  pub key : h.verify ≡ some verify
  pub signed : verify blob info.signature ≡ true

-- The checks end with no restart and not for want of a marker, or clear the blob.
Checked : Platform → UpdateInfo → Verdict → Type 0
Checked h info (stop o) = (o ≢ restart) × (o ≢ refused marker_failed)
Checked h info (proceed blob) = Cleared h info blob

check-Checked : (h : Platform) (info : UpdateInfo) → Checked h info (check h info)
unfolding check check_source check_blob Checked
check-Checked h info = elim (Option-cases (parse info.version)) [
  | inl bad ↦ rw (bad, check) (λ e. cc, λ e. cc)
  | inr (target, parsed) ↦ elim (Bool-cases (newer target (current h.version))) [
    | inr old ↦ elim (Bool-cases (same_version target (current h.version))) [
      | inl same ↦ rw (parsed, old, same, check) (λ e. cc, λ e. cc)
      | inr older ↦ rw (parsed, old, older, check) (λ e. cc, λ e. cc)
    ]
    | inl forward ↦ elim (Bool-cases (starts_with info.url "https://")) [
      | inr plain ↦ rw (parsed, forward, plain, check) (λ e. cc, λ e. cc)
      | inl secure ↦ elim (Option-cases h.verify) [
        | inl keyless ↦ rw (parsed, forward, secure, keyless, check) (λ e. cc, λ e. cc)
        | inr (verify, key) ↦ elim (Option-cases (download h info.url)) [
          | inl lost ↦ rw (parsed, forward, secure, key, lost, check) (λ e. cc, λ e. cc)
          | inr (blob, loaded) ↦ elim (Bool-cases (checksum_matches h info blob)) [
            | inr broken ↦
                rw (parsed, forward, secure, key, loaded, broken, check) (λ e. cc, λ e. cc)
            | inl intact ↦ elim (Bool-cases (verify blob info.signature)) [
              | inr forged ↦
                  rw (parsed, forward, secure, key, loaded, intact, forged, check)
                    (λ e. cc, λ e. cc)
              | inl signed ↦
                  let clear : check h info ≡ proceed blob =
                    rw (parsed, forward, secure, key, loaded, intact, signed, check) refl in
                  rw clear (record {
                    target = target;
                    parsed = parsed;
                    forward = forward;
                    secure = secure;
                    loaded = loaded;
                    intact = intact;
                    verify = verify;
                    key = key;
                    signed = signed;
                  })
            ]
          ]
        ]
      ]
    ]
  ]
]

Verdict-cases :
    (v : Verdict) → ((o : Outcome) × (v ≡ stop o)) ⊎ ((blob : Bytes) × (v ≡ proceed blob))
Verdict-cases (stop o) = inl (o, refl)
Verdict-cases (proceed blob) = inr (blob, refl)

-- The previous binary is what ran, and the candidate runs.
Swapped : Disk → Disk → Type 0
Swapped d e = (c : Bytes) × (d candidate ≡ some c) × (e binary ≡ some c) × (e previous ≡ d binary)

swap_cases :
    (h : Platform) (d : Disk)
    → (((swap h d).0 ≡ false)
        × (h.rename_fails previous binary ≡ false → (swap h d).1 binary ≡ d binary))
      ⊎ (((swap h d).0 ≡ true) × Swapped d (swap h d).1)
unfolding swap Swapped
swap_cases h d =
    let d0 : Disk = remove h previous d in
    let here : d0 binary ≡ d binary = remove_spares h previous binary d refl in
    let there : d0 candidate ≡ d candidate = remove_spares h previous candidate d refl in
    elim (rename_cases h binary previous d0) [
      | inl stuck ↦ inl (rw (stuck, swap) refl, λ ok. rw (stuck, swap) here)
      | inr (c, was, aside) ↦
          let d1 : Disk = set previous (some c) (set binary none d0) in
          elim (rename_cases h candidate binary d1) [
            | inl stuck ↦ inl (
              rw (aside, stuck, swap) refl,
              λ ok.
                  rw (aside, stuck, rename_lem h previous binary d1 c refl ok, swap)
                    (sym was ∙ here),
            )
            | inr (new, waited, placed) ↦ inr (
              rw (aside, placed, swap) refl,
              (
                new,
                sym there ∙ waited,
                rw (aside, placed, swap) refl,
                rw (aside, placed, swap) (sym was ∙ here),
              ),
            )
          ]
    ]

-- The update ends with nothing installed.
Refusal : Platform → Disk → Outcome × Disk → Type 0
Refusal h d x =
    (x.0 ≢ restart)
    × (x.0 ≢ refused marker_failed)
    × (h.rename_fails previous binary ≡ false → x.1 binary ≡ d binary)

abbrev pub marker_of : Platform → UpdateInfo → Pending
marker_of h info = record { from = h.version; to = info.version; at = h.now }

-- Beside the binaries, an update leaves its marker, or fails with `marker_failed`.
abbrev Marked : Platform → UpdateInfo → Outcome × Disk → Type 0
Marked h info x =
    (x.0 ≡ refused marker_failed)
    ⊎ ((x.0 ≡ restart)
        × (b : Bytes) × (h.marshal (marker_of h info) ≡ some b)
        × (x.1 pending_marker ≡ some b))

Installed : Platform → UpdateInfo → Bytes → Disk → Outcome × Disk → Type 0
Installed h info blob d x = (x.1 binary ≡ some blob) × (x.1 previous ≡ d binary) × Marked h info x

swap_in_cases :
    (h : Platform) (info : UpdateInfo) (blob : Bytes) (d : Disk)
    → d candidate ≡ some blob
    → Refusal h d (swap_in h info d) ⊎ Installed h info blob d (swap_in h info d)
unfolding swap_in Refusal Installed Swapped
swap_in_cases h info blob d there = elim (swap_cases h d) [
  | inl (stuck, kept) ↦ inl (
    rw (stuck, swap_in) (λ e. cc),
    rw (stuck, swap_in) (λ e. cc),
    λ ok. rw (stuck, swap_in) (remove_spares h candidate binary (swap h d).1 refl ∙ kept ok),
  )
  | inr (done, (c, was, placed, aside)) ↦
      let same : c ≡ blob = some_inj (sym was ∙ there) in
      let now : (swap h d).1 binary ≡ some blob = placed ∙ ap some same in
      inr (elim (write_json_cases h pending_tmp pending_marker (marker_of h info) (swap h d).1) [
        | inl lost ↦ rw (done, lost, swap_in) (now, aside, inl refl)
        | inr (inl (left, lost)) ↦ rw (done, lost, swap_in) (now, aside, inl refl)
        | inr (inr (b, m, kept)) ↦ rw (done, kept, swap_in) (now, aside, inr (refl, b, m, refl))
      ])
]

install_cases :
    (h : Platform) (info : UpdateInfo) (blob : Bytes) (d : Disk)
    → Refusal h d (install h info blob d)
      ⊎ ((h.trial (some blob) ≡ true) × Installed h info blob d (install h info blob d))
unfolding install Refusal Installed
install_cases h info blob d = elim (write_executable_cases h blob d) [
  | inl (left, lost) ↦
      inl
        (rw (lost, install) (λ e. cc), rw (lost, install) (λ e. cc), λ ok. rw (lost, install) refl)
  | inr wrote ↦ elim (Bool-cases (h.trial (some blob))) [
    | inr bad ↦
        let d1 : Disk = set candidate (some blob) (set part none (set part (some blob) d)) in
        inl (
          rw (wrote, bad, install) (λ e. cc),
          rw (wrote, bad, install) (λ e. cc),
          λ ok. rw (wrote, bad, install) (remove_spares h candidate binary d1 refl),
        )
    | inl good ↦
        let d1 : Disk = set candidate (some blob) (set part none (set part (some blob) d)) in
        elim (swap_in_cases h info blob d1 refl) [
          | inl r ↦ inl (rw (wrote, good, install) r)
          | inr i ↦ inr (good, rw (wrote, good, install) i)
        ]
  ]
]

apply_cases :
    (h : Platform) (info : UpdateInfo) (d : Disk)
    → Refusal h d (apply h info d)
      ⊎ ((blob : Bytes) × Cleared h info blob
          × (h.trial (some blob) ≡ true)
          × Installed h info blob d (apply h info d))
unfolding apply Refusal Checked
apply_cases h info d = elim (Verdict-cases (check h info)) [
  | inl (o, e) ↦
      let c = subst (Checked h info) e (check-Checked h info) in
      inl (rw (e, apply) c.0, rw (e, apply) c.1, λ ok. rw (e, apply) refl)
  | inr (blob, e) ↦
      let c = subst (Checked h info) e (check-Checked h info) in
      elim (install_cases h info blob d) [
        | inl r ↦ inl (rw (e, apply) r)
        | inr (trial, i) ↦ inr (blob, c, trial, rw (e, apply) i)
      ]
]

-- If putting the previous binary back is not refused by the file system, an update that ends in an
-- error other than the one on writing its marker, or in nothing to do, leaves the running binary's file as it was.
pub apply_keeps :
    (h : Platform) (info : UpdateInfo) (d : Disk)
    → h.rename_fails previous binary ≡ false
    → (apply h info d).0 ≢ restart
    → (apply h info d).0 ≢ refused marker_failed
    → (apply h info d).1 binary ≡ d binary
unfolding Refusal Installed
apply_keeps h info d ok alive marked = elim (apply_cases h info d) [
  | inl (a, b, kept) ↦ kept ok
  | inr (blob, c, trial, (now, aside, how)) ↦ elim how [
    | inl e ↦ absurd (marked e)
    | inr e ↦ absurd (alive e.0)
  ]
]

-- An update that asks for a restart installed a blob that was downloaded over https for a
-- strictly newer version, has the checksum of the metadata, is signed, and passed its trial run. What ran before
-- is the previous binary, and the marker names both versions and the time.
pub apply_installs :
    (h : Platform) (info : UpdateInfo) (d : Disk)
    → (apply h info d).0 ≡ restart
    → (blob : Bytes) × Cleared h info blob
      × (h.trial (some blob) ≡ true)
      × ((apply h info d).1 binary ≡ some blob)
      × ((apply h info d).1 previous ≡ d binary)
      × (b : Bytes) × (h.marshal (marker_of h info) ≡ some b)
      × ((apply h info d).1 pending_marker ≡ some b)
unfolding Refusal Installed
apply_installs h info d done = elim (apply_cases h info d) [
  | inl (a, b, kept) ↦ absurd (a done)
  | inr (blob, c, trial, (now, aside, how)) ↦ elim how [
    | inl e ↦ cc (sym done ∙ e)
    | inr (r, b, m, w) ↦ (blob, c, trial, now, aside, b, m, w)
  ]
]

-- An update that fails to write its marker has replaced the running binary all the same: the file
-- holds the downloaded blob, that passed the checks and its trial run, and what ran before is the previous binary.
pub marker_failure_replaces :
    (h : Platform) (info : UpdateInfo) (d : Disk)
    → (apply h info d).0 ≡ refused marker_failed
    → (blob : Bytes) × Cleared h info blob
      × (h.trial (some blob) ≡ true)
      × ((apply h info d).1 binary ≡ some blob)
      × ((apply h info d).1 previous ≡ d binary)
unfolding Refusal Installed
marker_failure_replaces h info d lost = elim (apply_cases h info d) [
  | inl (a, b, kept) ↦ absurd (b lost)
  | inr (blob, c, trial, (now, aside, how)) ↦ (blob, c, trial, now, aside)
]
