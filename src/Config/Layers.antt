-- ===== src/Config/Layers.antt =====
-- config.rs, `MyConfig::figment`: the sources of the configuration and their order.
use push_cache.Base.{◌≡◌, ◌∙◌, ◌⊎◌, inl, inr, Option, some, List, Text, codes}

-- What the code uses of `figment` and `figment_file_provider_adapter`.
pub record Layering (Value : Type 0) : Type 1 where
  pub Figment : Type 0
  pub Provider : Type 0
  pub new : Figment
  pub merge : Figment → Provider → Figment
  pub yaml_string : Text → Provider
  pub prefixed : Text → Provider
  pub split : Provider → Text → Provider
  pub wrap : Provider → Provider
  pub relative_to_dir : Provider → Text → Provider
  -- What a figment and a provider have at a path of keys; of a provider whether it has anything at the
  -- path, or at a part of it from the start.
  pub find : Figment → List Text → Option Value
  pub provides : Provider → List Text → Option Value
  pub IsSilent : Provider → List Text → Type 0

module _ {Value : Type 0} (layers : Layering Value) where
  open layers use {Figment, Provider}

  abbrev pub yaml_layer : Text → Text → Provider
  yaml_layer yaml_string secrets =
      layers.relative_to_dir (layers.wrap (layers.yaml_string yaml_string)) secrets

  abbrev pub env_layer : Provider
  env_layer = layers.split (layers.prefixed (codes "APP_")) (codes "__")

  unfoldable pub figment : Text → Text → Figment
  figment yaml_string secrets =
      layers.merge (layers.merge layers.new (yaml_layer yaml_string secrets)) env_layer

  -- `merge`, as documented: what a provider has replaces what was there, and where it is silent all
  -- stays.
  pub record IsMerging : Type 0 where
    pub merge_some :
        (f : Figment) (p : Provider) (path : List Text) {v : Value}
        → layers.provides p path ≡ some v
        → layers.find (layers.merge f p) path ≡ some v
    pub merge_silent :
        (f : Figment) (p : Provider) (path : List Text)
        → layers.IsSilent p path
        → layers.find (layers.merge f p) path ≡ layers.find f path

  -- A setting is that of the environment's variables, if they have it; where they are silent, it is that
  -- of the YAML text, its secrets read from the files.
  pub figment_lem :
      (yaml_string secrets : Text) (path : List Text) (v : Value)
      → IsMerging
      → (layers.provides env_layer path ≡ some v)
        ⊎ (layers.IsSilent env_layer path
            × (layers.provides (yaml_layer yaml_string secrets) path ≡ some v))
      → layers.find (figment yaml_string secrets) path ≡ some v
  unfolding figment
  figment_lem yaml_string secrets path v law (inl h) = law.merge_some _ env_layer path h
  figment_lem yaml_string secrets path v law (inr (silent, h)) =
      law.merge_silent _ env_layer path silent
      ∙ law.merge_some layers.new (yaml_layer yaml_string secrets) path h
