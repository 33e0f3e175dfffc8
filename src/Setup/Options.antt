-- ===== src/Setup/Options.antt =====
-- What the options of src/daemon.c can set.
use kbloomd.Common.{
  ℕ, ◌-◌, ◌≤◌, ◌<◌, ◌≡◌, refl, arith, Bool, true, false, Option, none, some, List, [], ◌∷◌, Bytes,
  text, Result, ok, err, length, length-take, same, if◌then◌else◌, einval,
}
use kbloomd.Platform.{Platform}
use kbloomd.Name.{path_max}
use kbloomd.FilterState.{SyncMode}
use kbloomd.Daemon.{Config}
use kbloomd.Setup.{
  Args, run, answered, bad, config_defaults, into_path, parse_octal_mode, parse_log_sync_mode,
  parse_option, parse_flag, parse_args_loop, parse_args,
}

-- The paths leave room for the NUL in their arrays, and the mode has permission bits only.
pub record IsConfigured (cfg : Config) : Type 0 where
  pub socket_path : length cfg.socket_path < path_max
  pub pin_root : length cfg.pin_root < path_max
  pub meta_root : length cfg.meta_root < path_max
  pub socket_mode : cfg.socket_mode ≤ 0x1ff

length-into_path : (value : Bytes) → length (into_path value) < path_max
unfolding into_path
length-into_path value = omega (arith, length-take (path_max - 1) value)

module _ (P : Platform) where
  parse_octal_mode_bound :
      (value : Bytes) (mode : ℕ) → parse_octal_mode P value ≡ ok mode → mode ≤ 0x1ff
  unfolding parse_octal_mode
  parse_octal_mode_bound value mode h = ground (arith, h)

  -- The configuration that one option leaves.
  abbrev Configures : Option (Result Config) → Type 0
  Configures none = Unit
  Configures (some (err e)) = e ≡ einval
  Configures (some (ok cfg)) = IsConfigured cfg

  parse_option-Configures :
      (arg value : Bytes) (cfg : Config)
      → IsConfigured cfg
      → Configures (parse_option P arg value cfg)
  unfolding parse_option
  parse_option-Configures arg value cfg c =
      chain (same arg (text "--socket")) (same arg (text "--pin-root"))
        (same arg (text "--meta-root")) (same arg (text "--socket-mode"))
        (same arg (text "--log-sync-mode"))
    where
      mode_set : Result ℕ → Result Config
      mode_set r = elim r [ err e ↦ err einval | ok mode ↦ ok (record cfg { socket_mode = mode }) ]

      mode_set_fits : (r : Result ℕ) → parse_octal_mode P value ≡ r → Configures (some (mode_set r))
      mode_set_fits (err e) eq = refl
      mode_set_fits (ok mode) eq = record {
        socket_path = c.socket_path;
        pin_root = c.pin_root;
        meta_root = c.meta_root;
        socket_mode = parse_octal_mode_bound value mode eq;
      }

      sync_set : Result SyncMode → Result Config
      sync_set r = elim r [
        | err e ↦ err einval
        | ok mode ↦ ok (record cfg { log_sync_mode = mode })
      ]

      sync_set_fits : (r : Result SyncMode) → Configures (some (sync_set r))
      sync_set_fits (err e) = refl
      sync_set_fits (ok mode) = record {
        socket_path = c.socket_path;
        pin_root = c.pin_root;
        meta_root = c.meta_root;
        socket_mode = c.socket_mode;
      }

      chain :
          (b1 b2 b3 b4 b5 : Bool)
          → Configures (
              if b1
              then some (ok (record cfg { socket_path = into_path value }))
              else if b2
              then some (ok (record cfg { pin_root = into_path value }))
              else if b3
              then some (ok (record cfg { meta_root = into_path value }))
              else if b4
              then some (mode_set (parse_octal_mode P value))
              else if b5
              then some (sync_set (parse_log_sync_mode value))
              else none)
      chain true b2 b3 b4 b5 = record {
        socket_path = length-into_path value;
        pin_root = c.pin_root;
        meta_root = c.meta_root;
        socket_mode = c.socket_mode;
      }
      chain false true b3 b4 b5 = record {
        socket_path = c.socket_path;
        pin_root = length-into_path value;
        meta_root = c.meta_root;
        socket_mode = c.socket_mode;
      }
      chain false false true b4 b5 = record {
        socket_path = c.socket_path;
        pin_root = c.pin_root;
        meta_root = length-into_path value;
        socket_mode = c.socket_mode;
      }
      chain false false false true b5 = mode_set_fits _ refl
      chain false false false false true = sync_set_fits _
      chain false false false false false = tt

  -- What the arguments come to: a configuration that fits, an answer, or EINVAL.
  abbrev pub Fits : Args → Type 0
  Fits (run cfg) = IsConfigured cfg
  Fits answered = Unit
  Fits (bad e) = e ≡ einval

  parse_flag-Fits : (arg : Bytes) (rest : Args) → Fits rest → Fits (parse_flag arg rest)
  unfolding parse_flag
  parse_flag-Fits arg rest h =
      chain (same arg (text "--foreground")) (same arg (text "--help"))
        (same arg (text "--version"))
    where
      chain :
          (b1 b2 b3 : Bool)
          → Fits (if b1 then rest else if b2 then answered else if b3 then answered else bad einval)
      chain true b2 b3 = h
      chain false true b3 = tt
      chain false false true = tt
      chain false false false = refl

  parse_args_loop-Fits :
      (argv : List Bytes) (cfg : Config) → IsConfigured cfg → Fits (parse_args_loop P argv cfg)
  unfolding parse_args_loop
  parse_args_loop-Fits [] cfg c = c
  parse_args_loop-Fits (arg ∷ []) cfg c = parse_flag-Fits arg (run cfg) c
  parse_args_loop-Fits (arg ∷ value ∷ more) cfg c =
      parsed (parse_option P arg value cfg) (parse_option-Configures arg value cfg c)
        (λ cfg1 c1. parse_args_loop-Fits more cfg1 c1) (parse_args_loop-Fits (value ∷ more) cfg c)
    where
      parsed :
          (o : Option (Result Config))
          → Configures o
          → ((cfg1 : Config) → IsConfigured cfg1 → Fits (parse_args_loop P more cfg1))
          → Fits (parse_args_loop P (value ∷ more) cfg)
          → Fits (elim o as (λ _. Args) [
            | none ↦ parse_flag arg (parse_args_loop P (value ∷ more) cfg)
            | some (err e) ↦ bad e
            | some (ok cfg1) ↦ parse_args_loop P more cfg1
          ])
      parsed none h next rest = parse_flag-Fits arg _ rest
      parsed (some (err e)) h next rest = h
      parsed (some (ok cfg1)) h next rest = next cfg1 h

  -- Whatever the arguments, bloomd_parse_args answers, returns EINVAL, or gives a configuration
  -- whose paths are shorter than PATH_MAX and whose socket mode is at most 0777.
  pub parse_args-Fits : (argv : List Bytes) → Fits (parse_args P argv)
  unfolding parse_args config_defaults text
  parse_args-Fits argv = parse_args_loop-Fits argv config_defaults (record {
    socket_path = omega arith;
    pin_root = omega arith;
    meta_root = omega arith;
    socket_mode = omega arith;
  })
