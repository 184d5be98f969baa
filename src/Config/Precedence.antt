-- ===== src/Config/Precedence.antt =====
-- LoadConfig: a flag goes before the environment, the environment before the file, and the file
-- before the default.
use distributed_rate_limiter.Base.{◌≡◌, refl, ap, ◌∙◌, false, Option, some, List, [], ◌∷◌}
use distributed_rate_limiter.Base.Str.{Str, bytes, is_empty}
use distributed_rate_limiter.Core.Models.{ok}
use distributed_rate_limiter.Config.{
  Config, ConfigOverrides, default_config, apply_config_overrides, or_keep,
}
use distributed_rate_limiter.Config.Env.{Strconv, env_map, apply_env_overrides}
use distributed_rate_limiter.Config.Flags.{given, flags_of, config_path_given}
use distributed_rate_limiter.Config.Load.{
  FlagSet, parse_flag_overrides, apply_flag_overrides, Files, load_config_file, with_file,
  load_config,
}
use distributed_rate_limiter.Config.Parallel.{AllReadable, environment, apply_env-environment}
use distributed_rate_limiter.Config.Settings.{settings, layered}
use distributed_rate_limiter.Config.Sources.{first_of, file_source}

module _ {F : Type 0} (files : Files F) (parse : List Str → Option FlagSet) (conv : Strconv)
    (zero_float : F) where
  -- The steps of LoadConfig, when none of them fails.
  loaded :
      (path : Str) (args environ : List Str) (fs : FlagSet) (base : Config F)
      → parse args ≡ some fs
      → with_file files (or_keep (flags_of fs).config_path path) (default_config zero_float)
        ≡ ok base
      → AllReadable conv (env_map environ)
      → load_config files parse conv zero_float path args environ
        ≡ ok (apply_flag_overrides (environment conv (env_map environ) base) (flags_of fs))
  unfolding load_config apply_env_overrides parse_flag_overrides
  loaded path args environ fs base flags file readable =
      rw (flags, load_config, parse_flag_overrides)
        (rw (file) (rw (apply_env-environment conv (env_map environ) base readable) refl))

  from_file :
      (path content : Str) (o : ConfigOverrides F) (cfg : Config F)
      → is_empty path ≡ false
      → files.read_file path ≡ ok content
      → files.unmarshal content ≡ ok o
      → with_file files path cfg ≡ ok (apply_config_overrides cfg o)
  unfolding with_file load_config_file
  from_file path content o cfg named found decoded =
      rw (named, found, with_file, load_config_file) (rw (decoded) refl)

  -- LoadConfig, with flags that parse, a file that is named (by the flag -config or by the caller),
  -- found and decodes, and an environment whose numbers and truth values can be read, succeeds, and
  -- each of the 41 settings of the result is that of the first source that has it: the flag, if its
  -- name is among those that were set; else the variable; else the field of the file, which for a
  -- duration must be marked as set; else the default. Twelve settings have a flag and a variable, the
  -- others only a field.
  pub load_config-precedence :
      (path content : Str) (args environ : List Str) (fs : FlagSet) (o : ConfigOverrides F)
      → parse args ≡ some fs
      → is_empty (first_of (given fs (bytes "config") fs.config ∷ []) path) ≡ false
      → files.read_file (first_of (given fs (bytes "config") fs.config ∷ []) path) ≡ ok content
      → files.unmarshal content ≡ ok o
      → AllReadable conv (env_map environ)
      → load_config files parse conv zero_float path args environ
        ≡ ok (settings conv zero_float fs (env_map environ) o)
  load_config-precedence path content args environ fs o flags named found decoded readable =
      let config_path : or_keep (flags_of fs).config_path path
          ≡ first_of (given fs (bytes "config") fs.config ∷ []) path =
        ap (λ f. or_keep f path) (config_path_given fs)
        ∙ file_source (given fs (bytes "config") fs.config) path in
      let file =
        ap (λ p. with_file files p (default_config zero_float)) config_path
        ∙ from_file (first_of (given fs (bytes "config") fs.config ∷ []) path) content o
            (default_config zero_float) named found decoded in
      loaded path args environ fs _ flags file readable
      ∙ ap ok (layered conv zero_float fs (env_map environ) o)
