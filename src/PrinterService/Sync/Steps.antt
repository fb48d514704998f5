-- ===== src/PrinterService/Sync/Steps.antt =====
-- What one step of a reload does to the printer of a serial.
use mathlib.Core.Path.{subst}
use bambu_gateway.Prelude.{
  ◌≡◌, ◌⊎◌, inl, inr, refl, sym, ap, ◌∙◌, String, Bool, true, false, Option, none, some,
  if◌then◌else◌, if_both, ◌==◌, string_eq, Bool-cases,
}
use bambu_gateway.Prelude.Dict
use bambu_gateway.Prelude.Dict.{Dict, lookup-insert, lookup-remove}
use bambu_gateway.ConfigStore.{PrinterConfig}
use bambu_gateway.PrinterService.Sync.{
  Made, Service, made, same_link, remove_printer, add_printer, reset_printer, renamed,
  rename_client, keep_printer, sync_one,
}

abbrev pub config_of : Option Made → Option PrinterConfig
config_of none = none
config_of (some m) = some m.config

abbrev pub renamed_client : PrinterConfig → PrinterConfig → Option Made → Option Made
renamed_client old new none = none
renamed_client old new (some m) = some (renamed old new m)

-- The client of a serial with both configurations, by whether these have the same link.
abbrev pub Linked : Bool → PrinterConfig → PrinterConfig → Option Made → Option Made → Type 0
Linked true old new before after = after ≡ renamed_client old new before
Linked false old new before after = config_of after ≡ some new

-- The client of a serial after a reload: none without a configuration, the one of before, under its
-- new name, with the same link, and else one that is made of the new configuration.
abbrev pub Serves : Option PrinterConfig → Option PrinterConfig → Option Made → Option Made → Type 0
Serves old none before after = after ≡ none
Serves none (some new) before after = config_of after ≡ some new
Serves (some old) (some new) before after = Linked (same_link old new) old new before after

same_key : (k : String) → (k == k) ≡ true
same_key k = let (_, same) = string_eq.eqb_iff k k in same refl

lookup-insert_same {ℓ} :
    {V : Type ℓ} (k : String) (v : V) (d : Dict String V)
    → Dict.lookup k (Dict.insert k v d) ≡ some v
lookup-insert_same k v d = lookup-insert k k v d ∙ rw (same_key k) refl

lookup-remove_same {ℓ} :
    {V : Type ℓ} (k : String) (d : Dict String V) → Dict.lookup k (Dict.remove k d) ≡ none
lookup-remove_same k d = lookup-remove k k d ∙ rw (same_key k) refl

-- A step for another serial changes nothing.
other_config :
    (j k : String) (old new : Option PrinterConfig) (s : Service)
    → (j == k) ≡ false
    → Dict.lookup k (sync_one j old new s).configs ≡ Dict.lookup k s.configs
unfolding remove_printer add_printer reset_printer keep_printer
other_config j k none none s e = refl
other_config j k (some old) none s e = lookup-remove j k s.configs ∙ rw e refl
other_config j k none (some new) s e = lookup-insert j k new s.configs ∙ rw e refl
other_config j k (some old) (some new) s e =
    if_both (λ (t : Service). Dict.lookup k t.configs ≡ Dict.lookup k s.configs) (same_link old new)
      (lookup-insert j k new s.configs ∙ rw e refl) (lookup-insert j k new s.configs ∙ rw e refl)

other_renamed :
    (j k : String) (old new : PrinterConfig) (o : Option Made) (d : Dict String Made)
    → (j == k) ≡ false
    → Dict.lookup k (rename_client j old new o d) ≡ Dict.lookup k d
other_renamed j k old new none d e = refl
other_renamed j k old new (some m) d e = lookup-insert j k (renamed old new m) d ∙ rw e refl

other_client :
    (j k : String) (old new : Option PrinterConfig) (s : Service)
    → (j == k) ≡ false
    → Dict.lookup k (sync_one j old new s).clients ≡ Dict.lookup k s.clients
unfolding remove_printer add_printer reset_printer keep_printer
other_client j k none none s e = refl
other_client j k (some old) none s e = lookup-remove j k s.clients ∙ rw e refl
other_client j k none (some new) s e = lookup-insert j k _ s.clients ∙ rw e refl
other_client j k (some old) (some new) s e =
    if_both (λ (t : Service). Dict.lookup k t.clients ≡ Dict.lookup k s.clients) (same_link old new)
      (other_renamed j k old new (Dict.lookup j s.clients) s.clients e)
      (lookup-insert j k _ s.clients ∙ rw e refl)

-- A step for the serial itself, which may have been done before.
here_renamed :
    (k : String) (old new : PrinterConfig) (o : Option Made) (d : Dict String Made)
    → Dict.lookup k d ≡ o
    → Dict.lookup k (rename_client k old new o d) ≡ renamed_client old new o
here_renamed k old new none d e = e
here_renamed k old new (some m) d e = lookup-insert_same k (renamed old new m) d

renamed_again :
    (old new : PrinterConfig) (o : Option Made)
    → renamed_client old new (renamed_client old new o) ≡ renamed_client old new o
renamed_again old new none = refl
renamed_again old new (some m) = elim (Bool-cases (old.name == new.name)) [
  | inl e ↦ rw e refl
  | inr e ↦ rw e refl
]

here-Linked :
    (b : Bool) (k : String) (old new : PrinterConfig) (before : Option Made) (s : Service)
    → (Dict.lookup k s.clients ≡ before) ⊎ Linked b old new before (Dict.lookup k s.clients)
    → Linked b old new before
        (Dict.lookup k (if b then keep_printer k old new s else reset_printer k new s).clients)
unfolding keep_printer reset_printer
here-Linked true k old new before s (inl e) =
    here_renamed k old new (Dict.lookup k s.clients) s.clients refl ∙ ap (renamed_client old new) e
here-Linked true k old new before s (inr e) =
    here_renamed k old new (Dict.lookup k s.clients) s.clients refl
    ∙ ap (renamed_client old new) e
    ∙ renamed_again old new before
here-Linked false k old new before s h =
    ap config_of (lookup-insert_same k (made s.next_number new) s.clients)

here_client :
    (k : String) (old new : Option PrinterConfig) (before : Option Made) (s : Service)
    → (old ≡ none → before ≡ none)
    → (Dict.lookup k s.clients ≡ before) ⊎ Serves old new before (Dict.lookup k s.clients)
    → Serves old new before (Dict.lookup k (sync_one k old new s).clients)
unfolding remove_printer add_printer
here_client k none none before s valid (inl e) = e ∙ valid refl
here_client k none none before s valid (inr e) = e
here_client k (some old) none before s valid h = lookup-remove_same k s.clients
here_client k none (some new) before s valid h =
    ap config_of (lookup-insert_same k (made s.next_number new) s.clients)
here_client k (some old) (some new) before s valid h =
    here-Linked (same_link old new) k old new before s h

here_config :
    (k : String) (old new : Option PrinterConfig) (s : Service)
    → (Dict.lookup k s.configs ≡ old) ⊎ (Dict.lookup k s.configs ≡ new)
    → Dict.lookup k (sync_one k old new s).configs ≡ new
unfolding remove_printer add_printer reset_printer keep_printer
here_config k none none s (inl e) = e
here_config k none none s (inr e) = e
here_config k (some old) none s h = lookup-remove_same k s.configs
here_config k none (some new) s h = lookup-insert_same k new s.configs
here_config k (some old) (some new) s h =
    if_both (λ (t : Service). Dict.lookup k t.configs ≡ some new) (same_link old new)
      (lookup-insert_same k new s.configs) (lookup-insert_same k new s.configs)

-- The serial's entries as before the reload, or as after it.
pub record IsWaiting (old : Option PrinterConfig) (before : Option Made) (k : String) (s : Service)
    : Type 0 where
  pub same_config : Dict.lookup k s.configs ≡ old
  pub same_client : Dict.lookup k s.clients ≡ before

pub record IsDone (old new : Option PrinterConfig) (before : Option Made) (k : String) (s : Service)
    : Type 0 where
  pub new_config : Dict.lookup k s.configs ≡ new
  pub served : Serves old new before (Dict.lookup k s.clients)

pub other-IsWaiting :
    {old : Option PrinterConfig} {before : Option Made} (j k : String) (o n : Option PrinterConfig)
    (s : Service)
    → (j == k) ≡ false
    → IsWaiting old before k s
    → IsWaiting old before k (sync_one j o n s)
other-IsWaiting j k o n s e h = record {
  same_config = other_config j k o n s e ∙ h.same_config;
  same_client = other_client j k o n s e ∙ h.same_client;
}

pub other-IsDone :
    {old new : Option PrinterConfig} {before : Option Made} (j k : String)
    (o n : Option PrinterConfig) (s : Service)
    → (j == k) ≡ false
    → IsDone old new before k s
    → IsDone old new before k (sync_one j o n s)
other-IsDone {old} {new} {before} j k o n s e h = record {
  new_config = other_config j k o n s e ∙ h.new_config;
  served = subst (Serves old new before) (sym (other_client j k o n s e)) h.served;
}

pub here-IsDone :
    {before : Option Made} (k : String) (old new : Option PrinterConfig) (s : Service)
    → (old ≡ none → before ≡ none)
    → IsWaiting old before k s ⊎ IsDone old new before k s
    → IsDone old new before k (sync_one k old new s)
here-IsDone {before} k old new s valid (inl h) = record {
  new_config = here_config k old new s (inl h.same_config);
  served = here_client k old new before s valid (inl h.same_client);
}
here-IsDone {before} k old new s valid (inr h) = record {
  new_config = here_config k old new s (inr h.new_config);
  served = here_client k old new before s valid (inr h.served);
}

pub absent-IsDone :
    (old new : Option PrinterConfig) (before : Option Made) (k : String) (s : Service)
    → (old ≡ none → before ≡ none)
    → old ≡ none
    → new ≡ none
    → IsWaiting old before k s
    → IsDone old new before k s
absent-IsDone none none before k s valid e e' h = record {
  new_config = h.same_config;
  served = h.same_client ∙ valid refl;
}
absent-IsDone (some o) new before k s valid e e' h = cc
absent-IsDone none (some n) before k s valid e e' h = cc
