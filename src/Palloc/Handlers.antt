-- ===== src/Palloc/Handlers.antt =====
-- struct nc_pool_cleanup of src/nc_palloc.h. A handler is a function of the client's, known here by
-- its address; what it does is a parameter.
use libnc.Prelude.{List, [], ◌∷◌, ◌==◌, if◌then◌else◌}
use libnc.Memory.{Addr, null, Cmd, pure, ◌>>◌}

-- `arg` is the field `data`, a reserved word here.
pub record Cleanup : Type 0 where
  pub cell : Addr
  pub handler : Addr
  pub arg : Addr

-- The first loop of nc_pool_destroy.
unfoldable pub run_cleanups : (Addr → Addr → Cmd (Unit {0})) → List Cleanup → Cmd (Unit {0})
run_cleanups call [] = pure tt
run_cleanups call (k ∷ ks) =
    (if k.handler == null then pure tt else call k.handler k.arg) >> run_cleanups call ks
