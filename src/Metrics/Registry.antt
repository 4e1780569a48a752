-- ===== src/Metrics/Registry.antt =====
-- The registry of the Prometheus client, which is not part of the program: what is documented of
-- `Register`, `NewRegistry`, and the collectors of the Go runtime and of the process.
use remote_write_inspector.Prelude.{
  ◌≡◌, ◌⊎◌, Bool, true, false, ◌&&◌, ◌||◌, List, [], ◌∷◌, ◌==◌, Option, some,
}
use remote_write_inspector.Prelude.Bytes.{Bytes, codes}
use remote_write_inspector.Identity.{contains_string}
use remote_write_inspector.Identity.Fields.{Distinct}
use remote_write_inspector.Validate.{label_name_match, metric_name_match}
use remote_write_inspector.Metrics.{Collector}

unfoldable pub starts_with : Bytes → Bytes → Bool
starts_with [] w = true
starts_with (c ∷ p) [] = false
starts_with (c ∷ p) (d ∷ w) = c == d && starts_with p w

-- Label names that begin with `__` are reserved.
abbrev pub reserved_label : Bytes → Bool
reserved_label w = starts_with (codes "__") w

unfoldable pub some_reserved : List Bytes → Bool
some_reserved [] = false
some_reserved (w ∷ ws) = reserved_label w || some_reserved ws

unfoldable pub label_names_match : List Bytes → Bool
label_names_match [] = true
label_names_match (w ∷ ws) = label_name_match w && label_names_match ws

-- A collector with a metric name and with different label names that are not reserved.
pub record ValidCollector (c : Collector) : Type 0 where
  pub name : metric_name_match c.name ≡ true
  pub distinct : Distinct [] c.labels
  pub labels : label_names_match c.labels ≡ true
  pub free : some_reserved c.labels ≡ false

-- `registered_names` gives the names of the collectors that a registry holds.
pub record Registry : Type 1 where
  pub Reg : Type 0
  pub fresh : Reg
  pub register : Collector → Reg → Option Reg
  pub register_go : Reg → Option Reg
  pub register_process : Reg → Option Reg
  pub registered_names : Reg → List Bytes
  pub fresh_names : registered_names fresh ≡ []
  pub register_valid :
      (c : Collector) (r : Reg)
      → ValidCollector c
      → contains_string (registered_names r) c.name ≡ false
      → (r' : Reg) × (register c r ≡ some r') × (registered_names r' ≡ c.name ∷ registered_names r)
  pub register_reserved :
      (c : Collector) (r : Reg) → some_reserved c.labels ≡ true → register c r ≡ Option.none
  pub register_go_names :
      (r : Reg)
      → ((w : Bytes)
          → contains_string (registered_names r) w ≡ true
          → starts_with (codes "go_") w ≡ false)
      → (r' : Reg) × (register_go r ≡ some r')
        × ((w : Bytes)
            → contains_string (registered_names r') w ≡ true
            → (contains_string (registered_names r) w ≡ true)
              ⊎ (starts_with (codes "go_") w ≡ true))
  pub register_process_names :
      (r : Reg)
      → ((w : Bytes)
          → contains_string (registered_names r) w ≡ true
          → starts_with (codes "process_") w ≡ false)
      → (r' : Reg) × (register_process r ≡ some r')
        × ((w : Bytes)
            → contains_string (registered_names r') w ≡ true
            → (contains_string (registered_names r) w ≡ true)
              ⊎ (starts_with (codes "process_") w ≡ true))
