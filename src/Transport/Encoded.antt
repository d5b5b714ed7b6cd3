-- ===== src/Transport/Encoded.antt =====
-- What a dequeue answers for the bytes of a serialized value.
use flua_ck.Base.{ℕ, ◌≡◌, refl, ap, ◌∙◌, Bool, true, false, some, List, [], ◌∷◌, if◌then◌else◌}
use flua_ck.Handle.{Answer, values, raises, load_error}
use flua_ck.Load.{Loaded, invalid_env}
use flua_ck.Load.RoundTrip.{reloaded, IsLoadable, loadshared-encode}
use flua_ck.Serialize.Format.{encode}
use flua_ck.Transport.{Runtime, load_block, answer_loaded}
use flua_ck.Value.{Value, boolean}

-- the answer for the bytes of a value
abbrev pub answer_value : Runtime → Value → Answer
answer_value rt v =
    if rt.garbage
    then raises (load_error invalid_env)
    else values (boolean true ∷ reloaded rt.lua rt.globals v ∷ [])

pub answer_encoded :
    (rt : Runtime) (v : Value) (e : List ℕ)
    → encode rt.lua v ≡ some e
    → IsLoadable rt.lua v
    → load_block rt (some e) ≡ answer_value rt v
unfolding load_block answer_loaded
answer_encoded rt v e h l =
    ap answer_loaded (loadshared-encode rt.lua rt.globals rt.load_custom v e rt.garbage h l)
    ∙ split rt.garbage
  where
    split :
        (b : Bool)
        → answer_loaded (
            if b
            then Loaded.failed invalid_env true
            else Loaded.loaded [] false (reloaded rt.lua rt.globals v ∷ []))
          ≡ (if b
              then raises (load_error invalid_env)
              else values (boolean true ∷ reloaded rt.lua rt.globals v ∷ []))
    split true = refl
    split false = refl
