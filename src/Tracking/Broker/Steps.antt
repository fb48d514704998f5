-- ===== src/Tracking/Broker/Steps.antt =====
-- The operations in any order, and what they keep.
use bambu_gateway.Prelude.{
  ℕ, suc, ◌<◌, ◌≡◌, ◌⊎◌, inl, inr, refl, sym, ap, ◌∙◌, String, Bool, not, ◌&&◌, ◌||◌, Option, none,
  some, List, [], if_both, ◌∷◌, arith, if◌then◌else◌, ◌==◌, string_eq,
}
use bambu_gateway.Prelude.Int.{ℤ}
use bambu_gateway.Prelude.Json.{Fields}
use bambu_gateway.Prelude.Dict
use bambu_gateway.Prelude.Dict.{Dict}
use bambu_gateway.Tracking.Broker.{
  Library, Broker, PrintSource, new_broker, empty_snapshot, Snapshot,
}
use bambu_gateway.Tracking.Broker.Build.{build_snapshot, snapshot_of}
use bambu_gateway.Tracking.Broker.Update.{
  SourceData, no_data, blob, file, update, register_given, register_source,
  set_printer_file_available, enrich_job, Enriched, enriched, rejected, broken, with_url,
  with_cloud, reset_job, forgets, is_boundary, can_fall_back, cloud_source, is_current,
}

abbrev pub enriched_by : Enriched → Broker
enriched_by (enriched b) = b
enriched_by (rejected b) = b
enriched_by (broken b) = b

pub data Step (py : Library) (b : Broker) : Broker → Type 0 where
  updates : (now : ℕ) (report : Fields) → Step py b (update py now report b)
  registers :
      (now : ℕ) (data_given : SourceData) (filename : String) (plate_id : ℤ)
      (mapping : Option (List ℤ))
      → Step py b (register_given py now data_given filename plate_id mapping b).1
  enriches :
      (now : ℕ) (key : String) (usage : Fields) (url : Option String)
      → Step py b (enriched_by (enrich_job py now key usage url b))
  changes_files :
      (now : ℕ) (available : Bool) → Step py b (set_printer_file_available py now available b)

pub data Reaches (py : Library) (b : Broker) : Broker → Type 0 where
  here : Reaches py b b
  later : {c d : Broker} → Reaches py b c → Step py c d → Reaches py b d

-- An enrichment leaves the broker alone, or the rest of it with a new usage reference, or builds a
-- snapshot from that with other sources.
module _ (P : Broker → Type 0) (py : Library) (now : ℕ) (key : String) (usage : Fields)
    (b : Broker) where
  abbrev referred : Broker
  referred = record b { usage_references = (key, usage) ∷ [] }

  abbrev Builds : Type 0
  Builds =
      (sources : Dict String PrintSource)
      → P (build_snapshot py now none (record referred { sources = sources }))

  cloud_case :
      (url : String)
      → P referred
      → Builds
      → P (enriched_by (with_cloud py now key url usage referred))
  cloud_case url h k = by_parts (py.urlparse url)
    where
      by_parts :
          (o : Option (String × String))
          → P (
              enriched_by (elim o [
                | none ↦ broken referred
                | some (scheme, path) ↦
                    if scheme == "http" || scheme == "https"
                    then enriched (
                        build_snapshot py now none (record referred {
                          sources =
                              Dict.insert key (cloud_source key url path usage) referred.sources;
                        }))
                    else enriched (build_snapshot py now none referred)
              ]))
      by_parts none = h
      by_parts (some (scheme, path)) =
          if_both (λ (e : Enriched). P (enriched_by e)) (scheme == "http" || scheme == "https")
            (k _) (k b.sources)

  url_case :
      (url : Option String)
      → P referred
      → Builds
      → P (enriched_by (with_url py now key url usage referred))
  url_case none h k = k b.sources
  url_case (some url) h k =
      if_both (λ (e : Enriched). P (enriched_by e))
        (not (url == "") && can_fall_back b.printer_file_available (Dict.lookup key b.sources))
        (cloud_case url h k) (k b.sources)

  pub enrich_cases :
      (url : Option String)
      → P b
      → P referred
      → Builds
      → P (enriched_by (enrich_job py now key usage url b))
  unfolding enrich_job
  enrich_cases url old h k =
      if_both (λ (e : Enriched). P (enriched_by e))
        (not (key == "") && is_current key b.snapshot.job_key) (url_case url h k) old

-- Either a new snapshot, whose number is one more than any before, or the snapshot of before.
abbrev pub Numbered : Broker → Broker → Type 0
Numbered b c =
    (c.snapshot.sequence ≡ suc b.sequence) × (c.sequence ≡ suc b.sequence)
    ⊎ (c.snapshot ≡ b.snapshot) × (c.sequence ≡ b.sequence)

built-Numbered :
    (py : Library) (now : ℕ) (preferred : Option String) (b c : Broker)
    → b.sequence ≡ c.sequence
    → Numbered c (build_snapshot py now preferred b)
unfolding build_snapshot snapshot_of
built-Numbered py now preferred b c e = inl (omega (arith, e), omega (arith, e))

reset_job-sequence :
    (py : Library) (report : Fields) (b : Broker) → (reset_job py report b).sequence ≡ b.sequence
unfolding reset_job
reset_job-sequence py report b =
    if_both (λ (c : Broker). c.sequence ≡ b.sequence) (forgets py report b) refl refl

Step-Numbered : (py : Library) (b c : Broker) → Step py b c → Numbered b c
unfolding update register_given register_source set_printer_file_available
Step-Numbered py b _ (updates now report) = built-Numbered py now none _ b (
    if_both (λ (c : Broker). c.sequence ≡ b.sequence) (is_boundary py report b.raw)
      (reset_job-sequence py report b) refl)
Step-Numbered py b _ (registers now no_data filename plate_id mapping) = inr (refl, refl)
Step-Numbered py b _ (registers now (file none) filename plate_id mapping) = inr (refl, refl)
Step-Numbered py b _ (registers now (file (some bytes)) filename plate_id mapping) =
    built-Numbered py now _ _ b refl
Step-Numbered py b _ (registers now (blob bytes) filename plate_id mapping) =
    built-Numbered py now _ _ b refl
Step-Numbered py b _ (changes_files now available) =
    if_both (Numbered b) _ (inr (refl, refl)) (built-Numbered py now none _ b refl)
Step-Numbered py b _ (enriches now key usage url) =
    enrich_cases (Numbered b) py now key usage b url (inr (refl, refl)) (inr (refl, refl))
      (λ sources. built-Numbered py now none _ b refl)

Reaches-sequence :
    (py : Library) (id : String) (available : Bool) (b : Broker)
    → Reaches py (new_broker id available) b
    → b.snapshot.sequence ≡ b.sequence
unfolding new_broker empty_snapshot
Reaches-sequence py id available _ here = refl
Reaches-sequence py id available c (later {c = b} r s) =
    let old = Reaches-sequence py id available b r in
    elim (Step-Numbered py b c s) [
      | inl (e, f) ↦ omega (arith, e, f)
      | inr (e, f) ↦ ap (λ (x : Snapshot). x.sequence) e ∙ old ∙ sym f
    ]

-- In every state that a new broker comes to, an operation keeps the snapshot as it is or replaces
-- it by one with a greater number.
pub Step-sequence :
    (py : Library) (id : String) (available : Bool) (b c : Broker)
    → Reaches py (new_broker id available) b
    → Step py b c
    → (c.snapshot ≡ b.snapshot) ⊎ (b.snapshot.sequence < c.snapshot.sequence)
Step-sequence py id available b c r s =
    let old = Reaches-sequence py id available b r in
    elim (Step-Numbered py b c s) [ inl (e, f) ↦ inr (omega (arith, e, old)) | inr (e, f) ↦ inl e ]
