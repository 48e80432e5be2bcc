-- ===== src/Examples/Jobs.antt =====
-- A schedule of jobs, and two flags.
use sealed_secrets.Base.{◌≡◌, refl, String, [], ◌∷◌, none, some, arith, inl}
use sealed_secrets.Funcs.Schedule.{
  Schedule, running, sleeping_until, Reach, pass, wake, tick, call, begin, after,
}
use sealed_secrets.Funcs.Pace.{IsPaced, Reach-IsPaced}
use sealed_secrets.Flags.{Flag, FlagSet, Environment, set_flags_from_env}
use sealed_secrets.Flags.Precedence.{IsPrecedent, set_flags_from_env_lem}

-- The first job is at work, five seconds after the start, and somebody waits for the next one.
abbrev at_work : Schedule
at_work = record {
  now = 15;
  worker = running;
  timer = sleeping_until 45;
  callers = 1;
  ticks = 1;
  triggers = 0;
  started = 1;
  finished = 0;
}

at_work_reached : Reach 10 5 30 at_work
at_work_reached =
    after (after (after (after begin (pass 5)) (wake 15 refl (omega arith))) (tick refl refl)) call

Reach-IsPaced_example : IsPaced 15 30 at_work
Reach-IsPaced_example = Reach-IsPaced 10 5 30 at_work at_work_reached

-- The variable SEALED_SECRETS_KEY_TTL is set.
abbrev toy_environment : Environment
toy_environment = record {
  Value = String;
  lookup_env = λ name. elim name [ [] ↦ none | b ∷ rest ↦ some "from the environment" ];
  set = λ f e v. e;
}

abbrev key_ttl : Flag
key_ttl = record { name = "key-ttl"; variable = "ValidFor" }

abbrev toy_flags : FlagSet
toy_flags = record {
  actual = "my-cn" ∷ [];
  formal = key_ttl ∷ record { name = "my-cn"; variable = "MyCN" } ∷ [];
}

set_flags_from_env_lem_example :
    IsPrecedent toy_environment "SEALED_SECRETS" toy_flags key_ttl "default"
      (set_flags_from_env toy_environment "SEALED_SECRETS" toy_flags (λ x. "default") "ValidFor")
    × (set_flags_from_env toy_environment "SEALED_SECRETS" toy_flags (λ x. "default") "KeySize"
        ≡ "default")
set_flags_from_env_lem_example =
    set_flags_from_env_lem toy_environment "SEALED_SECRETS" toy_flags key_ttl "KeySize"
      (λ x. "default") ((λ e. cc e, tt), (tt, tt)) (inl refl) (λ e. cc e, (λ e. cc e, tt))
