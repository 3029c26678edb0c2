-- ===== src/Host/Process.antt =====
-- The path of the plugin and the command that starts it (crates/agentmesh-host/src/process.rs), on
-- Unix.
use mathlib.Core.Path.{subst}
use gareji_core.Base.{
  sym, ap, ◌∙◌, ◌≡◌, ◌⊎◌, inl, inr, refl, Bool, true, false, not, Option, none, some, List, [], ◌∷◌,
  ◌++◌, Text, codes, if◌then◌else◌, Result, ok, err, put, value_at, value_at-put, Elem, Elem-append,
  ◌↔◌, eq_iff, ◌==◌, text_ord,
}
use gareji_core.Framing.{Headers}
use gareji_core.Host.{Command, Libraries, Os}

pub data PluginPathError : Type 0 where
  not_absolute not_found not_file : PluginPathError

-- `PluginPath::resolve`; `metadata` tells whether the path is a file.
unfoldable pub path_of : Text → Option Bool → Result Text PluginPathError
path_of path none = err not_found
path_of path (some false) = err not_file
path_of path (some true) = ok path

unfoldable pub resolve :
    {W : Type 0} → Libraries → Os W → Text → W → Result Text PluginPathError × W
unfolding path_of
resolve lib os path w =
    let (found, w') = os.metadata path w in
    if not (lib.is_absolute path) then (err not_absolute, w) else (path_of path found, w')

abbrev pub baseline_keys : List Text
baseline_keys = codes "PATH" ∷ codes "HOME" ∷ codes "LANG" ∷ codes "LC_ALL" ∷ codes "TZ" ∷ []

-- `if let Ok(val) = std::env::var(key) { cmd.env(key, val); }` for each key.
unfoldable pub restore : (Text → Option Text) → List Text → Headers → Headers
restore env_var [] env = env
restore env_var (key ∷ keys) env = elim (env_var key) [
  | none ↦ restore env_var keys env
  | some val ↦ restore env_var keys (put key val env)
]

-- `build_plugin_command`
unfoldable pub build_plugin_command : Libraries → Text → List Text → Command
unfolding restore
build_plugin_command lib plugin allowlisted_env_keys = record {
  program = plugin;
  env = restore lib.env_var allowlisted_env_keys (restore lib.env_var baseline_keys []);
}

-- Every variable is of a given key, with its value in the Host.
abbrev IsFrom : (Text → Option Text) → List Text → Headers → Type 0
IsFrom env_var keys env =
    (key val : Text) → value_at key env ≡ some val → Elem key keys × (env_var key ≡ some val)

put-IsFrom :
    (env_var : Text → Option Text) (keys : List Text) (env : Headers) (k v : Text)
    → Elem k keys
    → env_var k ≡ some v
    → IsFrom env_var keys env
    → IsFrom env_var keys (put k v env)
put-IsFrom env_var keys env k v m e from key val h =
    go (k == key) refl (rw (value_at-put key k v env) at h)
  where
    go :
        (b : Bool)
        → (k == key) ≡ b
        → (if b then some v else value_at key env) ≡ some val
        → Elem key keys × (env_var key ≡ some val)
    go true same found =
        let q : k ≡ key = (eq_iff k key).0 same in
        (subst (λ x. Elem x keys) q m, ap env_var (sym q) ∙ e ∙ found)
    go false other found = from key val found

restore-IsFrom :
    (env_var : Text → Option Text) (all_keys keys : List Text) (env : Headers)
    → ((k : Text) → Elem k keys → Elem k all_keys)
    → IsFrom env_var all_keys env
    → IsFrom env_var all_keys (restore env_var keys env)
unfolding restore
restore-IsFrom env_var all_keys [] env sub from = from
restore-IsFrom env_var all_keys (k ∷ keys) env sub from =
    go (env_var k) refl (λ env' from' key val h.
      restore-IsFrom env_var all_keys keys env' (λ j m. sub j (inr m)) from' key val h)
  where
    go :
        (o : Option Text)
        → env_var k ≡ o
        → ((env' : Headers)
            → IsFrom env_var all_keys env'
            → IsFrom env_var all_keys (restore env_var keys env'))
        → IsFrom env_var all_keys (restore env_var (k ∷ keys) env)
    go none e later = rw (restore, e) (later env from)
    go (some v) e later =
        rw (restore, e)
          (later (put k v env) (put-IsFrom env_var all_keys env k v (sub k (inl refl)) e from))

restore_has :
    (env_var : Text → Option Text) (key val : Text) (keys : List Text) (env : Headers)
    → env_var key ≡ some val
    → Elem key keys ⊎ (value_at key env ≡ some val)
    → value_at key (restore env_var keys env) ≡ some val
unfolding restore
restore_has env_var key val [] env set (inl m) = absurd m
restore_has env_var key val [] env set (inr h) = h
restore_has env_var key val (k ∷ keys) env set h =
    go (env_var k) refl h (λ env' g. restore_has env_var key val keys env' set g)
  where
    put_same :
        (v : Text) (b : Bool)
        → (k == key) ≡ b
        → env_var k ≡ some v
        → Elem key (k ∷ keys) ⊎ (value_at key env ≡ some val)
        → Elem key keys ⊎ ((if b then some v else value_at key env) ≡ some val)
    put_same v true same e g = inr (sym e ∙ ap env_var ((eq_iff k key).0 same) ∙ set)
    put_same v false other e (inl (inl q)) = absurd (cc ((eq_iff k key).1 (sym q)))
    put_same v false other e (inl (inr m)) = inl m
    put_same v false other e (inr g) = inr g

    unset :
        env_var k ≡ none
        → Elem key (k ∷ keys) ⊎ (value_at key env ≡ some val)
        → Elem key keys ⊎ (value_at key env ≡ some val)
    unset e (inl (inl q)) = absurd (cc (ap env_var q))
    unset e (inl (inr m)) = inl m
    unset e (inr g) = inr g

    go :
        (o : Option Text)
        → env_var k ≡ o
        → Elem key (k ∷ keys) ⊎ (value_at key env ≡ some val)
        → ((env' : Headers)
            → Elem key keys ⊎ (value_at key env' ≡ some val)
            → value_at key (restore env_var keys env') ≡ some val)
        → value_at key (restore env_var (k ∷ keys) env) ≡ some val
    go none e g later = rw (restore, e) (later env (unset e g))
    go (some v) e g later =
        rw (restore, e)
          (later (put k v env) (
            subst (λ o. Elem key keys ⊎ (o ≡ some val)) (sym (value_at-put key k v env))
              (put_same v (k == key) refl e g)))

-- The environment of the plugin is cleared, and then has exactly those variables of the Host whose names
-- are on the short list of the platform or were allowed by the configuration.
pub build_plugin_command_env :
    (lib : Libraries) (plugin : Text) (allowed : List Text) (key val : Text)
    → (value_at key (build_plugin_command lib plugin allowed).env ≡ some val)
      ↔ (Elem key (baseline_keys ++ allowed) × (lib.env_var key ≡ some val))
unfolding build_plugin_command value_at
build_plugin_command_env lib plugin allowed key val = (
  λ h.
      restore-IsFrom lib.env_var (baseline_keys ++ allowed) allowed
        (restore lib.env_var baseline_keys [])
        (λ k m. (Elem-append k baseline_keys allowed).1 (inr m))
        (restore-IsFrom lib.env_var (baseline_keys ++ allowed) baseline_keys []
          (λ k m. (Elem-append k baseline_keys allowed).1 (inl m)) (λ k v e. absurd (cc e)))
        key val h,
  λ h.
      restore_has lib.env_var key val allowed (restore lib.env_var baseline_keys []) h.1
        (elim ((Elem-append key baseline_keys allowed).0 h.0) [
          | inl m ↦ inr (restore_has lib.env_var key val baseline_keys [] h.1 (inl m))
          | inr m ↦ inl m
        ]),
)
