-- ===== src/Tracking/Broker/Registered.antt =====
-- The source that the gateway registers for its own print.
use text.Mathlib.TextLemmas.{append-eq-nil_iff, cons-ne-nil}
use bambu_gateway.Prelude.{
  ℕ, ◌≡◌, refl, ap, String, Bool, true, false, not, ◌&&◌, Option, none, some, List, [], ◌∷◌,
  if◌then◌else◌, ◌==◌, string_eq, Bool-cases, inl, inr,
}
use bambu_gateway.Prelude.Int.{ℤ}
use bambu_gateway.Prelude.Json.{Fields}
use bambu_gateway.Prelude.Dict
use bambu_gateway.Tracking.Broker.{Bytes, Library, Broker, PrintSource, derive_job_key}
use bambu_gateway.Tracking.Broker.Build.{
  build_snapshot, choose_key, find_source, take_pending, take_reported, snapshot_of,
}
use bambu_gateway.Tracking.Broker.Update.{
  is_boundary, forgets, reset_job, update, source_key, new_source, register_source, source_for,
  is_current,
}

-- One report after another.
unfoldable pub update_all : Library → List (ℕ × Fields) → Broker → Broker
update_all py [] b = b
update_all py ((now, report) ∷ rest) b = update_all py rest (update py now report b)

-- No report is the first of a job that the broker forgets its job for.
unfoldable pub same_job : Library → List (ℕ × Fields) → Broker → Bool
same_job py [] b = true
same_job py ((now, report) ∷ rest) b =
    not (is_boundary py report b.raw && forgets py report b)
    && same_job py rest (update py now report b)

record Holds (key : String) (source : PrintSource) (b : Broker) : Type 0 where
  active : b.active_job_key ≡ some key
  held : Dict.lookup key b.sources ≡ some source

record IsServed (key : String) (source : PrintSource) (b : Broker) : Type 0 where
  job : Holds key source b
  current : b.snapshot.job_key ≡ some key

chosen :
    (py : Library) (key : String) (b : Broker)
    → b.active_job_key ≡ some key
    → choose_key py none b ≡ (some key, some key)
unfolding choose_key derive_job_key
chosen py key b h = rw h refl

found :
    (py : Library) (key : String) (source : PrintSource) (b : Broker)
    → Dict.lookup key b.sources ≡ some source
    → (find_source py (some key) b).1 ≡ b.sources
unfolding find_source take_pending take_reported
found py key source b h = rw h refl

build_snapshot-IsServed :
    (py : Library) (now : ℕ) (key : String) (source : PrintSource) (b : Broker)
    → Holds key source b
    → IsServed key source (build_snapshot py now none b)
unfolding build_snapshot snapshot_of
build_snapshot-IsServed py now key source b h = record {
  job = record {
    active = ap (λ p. p.1) (chosen py key b h.active);
    held = rw (chosen py key b h.active, found py key source b h.held) h.held;
  };
  current = ap (λ p. p.0) (chosen py key b h.active);
}

preferred :
    (py : Library) (key : String) (b : Broker)
    → (key == "") ≡ false
    → b.active_job_key ≡ some key
    → choose_key py (some key) b ≡ (some key, some key)
unfolding choose_key
preferred py key b e h = rw (e, h) refl

build_snapshot-preferred :
    (py : Library) (now : ℕ) (key : String) (source : PrintSource) (b : Broker)
    → (key == "") ≡ false
    → Holds key source b
    → IsServed key source (build_snapshot py now (some key) b)
unfolding build_snapshot snapshot_of
build_snapshot-preferred py now key source b e h = record {
  job = record {
    active = ap (λ p. p.1) (preferred py key b e h.active);
    held = rw (preferred py key b e h.active, found py key source b h.held) h.held;
  };
  current = ap (λ p. p.0) (preferred py key b e h.active);
}

kept_job :
    (py : Library) (report : Fields) (key : String) (source : PrintSource) (b : Broker) (c d : Bool)
    → not (c && d) ≡ true
    → forgets py report b ≡ d
    → Holds key source b
    → Holds key source (if c then reset_job py report b else b)
unfolding reset_job
kept_job py report key source b true true e f h = absurd cc
kept_job py report key source b true false e f h =
    rw (f, reset_job) (record { active = h.active; held = h.held })
kept_job py report key source b false d e f h = h

update-IsServed :
    (py : Library) (now : ℕ) (report : Fields) (key : String) (source : PrintSource) (b : Broker)
    → not (is_boundary py report b.raw && forgets py report b) ≡ true
    → Holds key source b
    → IsServed key source (update py now report b)
unfolding update
update-IsServed py now report key source b e h =
    let kept =
      kept_job py report key source b (is_boundary py report b.raw) (forgets py report b) e refl
        h in
    build_snapshot-IsServed py now key source _ (record { active = kept.active; held = kept.held })

update_all-IsServed :
    (py : Library) (key : String) (source : PrintSource) (reports : List (ℕ × Fields)) (b : Broker)
    → same_job py reports b ≡ true
    → IsServed key source b
    → IsServed key source (update_all py reports b)
unfolding update_all same_job
update_all-IsServed py key source [] b e h = h
update_all-IsServed py key source ((now, report) ∷ rest) b e h =
    let (first, more) = both _ _ e in
    update_all-IsServed py key source rest (update py now report b) more
      (update-IsServed py now report key source b first h.job)
  where
    both : (x y : Bool) → (x && y) ≡ true → (x ≡ true) × (y ≡ true)
    both true y e = (refl, e)
    both false y e = absurd cc

source_key-nonempty :
    (py : Library) (bytes : Bytes) (filename : String) (plate_id : ℤ)
    → (source_key py bytes filename plate_id == "") ≡ false
source_key-nonempty py bytes filename plate_id =
    elim (Bool-cases (source_key py bytes filename plate_id == "")) [
      | inl e ↦
          let (empty, _) = string_eq.eqb_iff (source_key py bytes filename plate_id) "" in
          let (parts, _) = append-eq-nil_iff {p = "gateway:"} in
          let (none_there, _) = parts (empty e) in absurd (cons-ne-nil "g" "ateway:" none_there)
      | inr e ↦ e
    ]

first_entry :
    (key : String) (source : PrintSource) → Dict.lookup key ((key, source) ∷ []) ≡ some source
unfolding Dict.lookup
first_entry key source = let (_, same) = string_eq.eqb_iff key key in rw (same refl) refl

register_source-IsServed :
    (py : Library) (now : ℕ) (bytes : Bytes) (filename : String) (plate_id : ℤ)
    (mapping : Option (List ℤ)) (b : Broker)
    → let key = source_key py bytes filename plate_id in
      IsServed key
        (new_source key bytes filename plate_id mapping)
        (register_source py now bytes filename plate_id mapping b).1
unfolding register_source
register_source-IsServed py now bytes filename plate_id mapping b =
    build_snapshot-preferred py now _ _ _ (source_key-nonempty py bytes filename plate_id)
      (record { active = refl; held = first_entry _ _ })

served_now : (key : String) → is_current key (some key) ≡ true
served_now key = let (_, same) = string_eq.eqb_iff key key in same refl

served :
    (key : String) (source : PrintSource) (b : Broker)
    → (key == "") ≡ false
    → IsServed key source b
    → source_for key b ≡ some source
unfolding source_for
served key source b e h = rw (e, h.current, served_now key) h.job.held

-- A source that the gateway has registered is served, with its bytes, under the key that the
-- registration returned, until the first report of a job that it does not wait for: whatever
-- reports come before that.
pub register_source-source_for :
    (py : Library) (now : ℕ) (bytes : Bytes) (filename : String) (plate_id : ℤ)
    (mapping : Option (List ℤ)) (b : Broker) (reports : List (ℕ × Fields))
    → let (key, b') = register_source py now bytes filename plate_id mapping b in
      same_job py reports b' ≡ true
      → source_for key (update_all py reports b')
        ≡ some (new_source key bytes filename plate_id mapping)
unfolding register_source
register_source-source_for py now bytes filename plate_id mapping b reports e =
    served _ _ _ (source_key-nonempty py bytes filename plate_id) (
      update_all-IsServed py _ _ reports _ e
        (register_source-IsServed py now bytes filename plate_id mapping b))
