-- ===== src/Cache/Custom/Reload.antt =====
-- serde.c: custom values of a type that a thread has not met before.
use flua_ck.Base.{
  ℕ, ◌-◌, ◌^◌, ◌<◌, ◌≡◌, refl, ap, sym, ◌∙◌, Bool, true, false, Option, none, some, List, [], ◌∷◌,
  ◌++◌, ==_self, leb, arith, length, get_elem?, take-append, length-append,
}
use flua_ck.Base.Words.{le, un_le-le, length-le}
use flua_ck.Cache.{Cache, Registered, without_type}
use flua_ck.Cache.Custom.{
  custom, methods, find_type, block_contents, called, call_deserialize, add_methods, second_method,
  first_method, load_methods, with_methods, with_stream, load_custom_value,
}
use flua_ck.Load.{Loader, loaded, loadshared, loadsharedimpl, check_env, consume}
use flua_ck.Load.Inverse.{consume-append}
use flua_ck.Load.RoundTrip.{reloaded, IsLoadable, loadsharedimpl-encode, loadshared-encode}
use flua_ck.Serialize.{Lua}
use flua_ck.Serialize.Format.{encode}
use flua_ck.Transport.{Runtime}
use flua_ck.Value.{Value}

-- a serialized value at the start of a block
loadshared-append :
    (lua : Lua) (globals : Value) (load_custom : ℕ → Loader) (v : Value) (e rest : List ℕ)
    → encode lua v ≡ some e
    → IsLoadable lua v
    → loadshared lua globals load_custom false (e ++ rest)
      ≡ loaded rest false (reloaded lua globals v ∷ [])
unfolding loadshared check_env loadsharedimpl consume
loadshared-append lua globals load_custom v [] rest h w =
    absurd (cc (loadsharedimpl-encode lua globals load_custom 0 v [] [] false [] h w))
loadshared-append lua globals load_custom v (x ∷ es) rest h w = ap check_env (
    loadsharedimpl-encode lua globals load_custom (length (es ++ rest)) v (x ∷ es) rest false [] h
      w)

size_field : (n : ℕ) (bs : List ℕ) → consume 8 (le 8 n ++ bs) ≡ some (le 8 n, bs)
size_field n bs =
    ap (λ k. consume k (le 8 n ++ bs)) (sym (length-le 8 n)) ∙ consume-append (le 8 n) bs

abbrev pub reloaded_methods : Runtime → ℕ → Value → Value → Registered
reloaded_methods rt type ser de =
    methods type (reloaded rt.lua rt.globals ser) (reloaded rt.lua rt.globals de)

abbrev pub kept_methods : {H : Type 0} → Runtime → ℕ → Value → Value → Cache H → Cache H
kept_methods rt type ser de st = record st {
  registry = reloaded_methods rt type ser de ∷ without_type type st.registry;
}

module _ {H : Type 0} (rt : Runtime) (call : Value → List ℕ → Option Value) where
  with_stream-take :
      (fmemopen : ℕ → Bool) (type : ℕ) (payload rest : List ℕ) (st : Cache H)
      → length payload < 2 ^ 64
      → fmemopen (length payload) ≡ true
      → load_custom_value rt call fmemopen type (le 8 (length payload) ++ (payload ++ rest)) st
        ≡ with_methods rt call (payload ++ rest) payload type st (find_type type st.registry)
  unfolding load_custom_value with_stream
  with_stream-take fmemopen type payload rest st small opens =
      rw
        (
          size_field (length payload) (payload ++ rest),
          un_le-le 8 (length payload) small,
          opens,
          within,
          take-append payload rest,
        )
        refl
    where
      within : leb (length payload) (length (payload ++ rest)) ≡ true
      within = rw (length-append payload rest) (ground arith)

  -- A custom value of a type that this thread has no methods for, in a block, where `fmemopen` opens the
  -- stream, `deserialize` answers a value, and the `env` of `loadshared`, which is not initialised, is
  -- false for the methods: they are loaded
  -- from the array and kept, `deserialize` gets the bytes of the value, and the next value of the
  -- type finds the methods. Both times the read position that is returned stands at the start of
  -- these bytes, and not behind them.
  pub load_custom_value-find_type :
      (fmemopen : ℕ → Bool) (type b : ℕ) (payload rest es ed : List ℕ) (ser de x : Value)
      (st : Cache H)
      → length payload < 2 ^ 64
      → fmemopen (length payload) ≡ true
      → find_type type st.registry ≡ none
      → get_elem? st.blocks (type - 9) ≡ some b
      → st.mem.cell b ≡ some (es ++ ed)
      → encode rt.lua ser ≡ some es
      → encode rt.lua de ≡ some ed
      → IsLoadable rt.lua ser
      → IsLoadable rt.lua de
      → rt.garbage ≡ false
      → call (reloaded rt.lua rt.globals de) payload ≡ some x
      → (load_custom_value rt call fmemopen type (le 8 (length payload) ++ (payload ++ rest)) st ≡ (
        custom (payload ++ rest) x (reloaded_methods rt type ser de),
        kept_methods rt type ser de st,
      ))
        × (load_custom_value rt call fmemopen type
              (le 8 (length payload) ++ (payload ++ rest))
              (kept_methods rt type ser de st)
            ≡ (
              custom (payload ++ rest) x (reloaded_methods rt type ser de),
              kept_methods rt type ser de st,
            ))
  unfolding with_methods load_methods block_contents first_method second_method add_methods
      call_deserialize called find_type
  load_custom_value-find_type fmemopen type b payload rest es ed ser de x st small opens new at
        block hs hd ls ld env h =
      (
        with_stream-take fmemopen type payload rest st small opens
            ∙ rw
                (
                  new,
                  at,
                  block,
                  env,
                  loadshared-append rt.lua rt.globals rt.load_custom ser es ed hs ls,
                  loadshared-encode rt.lua rt.globals rt.load_custom de ed false hd ld,
                  h,
                )
                refl,
        with_stream-take fmemopen type payload rest (kept_methods rt type ser de st) small opens
            ∙ rw (==_self type, h) refl,
      )
