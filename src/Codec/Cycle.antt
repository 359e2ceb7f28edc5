-- ===== src/Codec/Cycle.antt =====
-- json_gobject_serialize of lib/searpc-utils.c on an object that holds itself.
use libsearpc.Prelude.{ℕ, zero, suc, ◌≡◌, refl, some, List, ◌∷◌}
use libsearpc.Jansson.{Jansson}
use libsearpc.Types.{crash, stack_overflow}
use libsearpc.Codec.System.{GValue, ParamSpec, GObjects}
use libsearpc.Codec.Serialize.{json_serialize_pspec, serialize_properties, json_gobject_serialize}

module _ (J : Jansson) (G : GObjects J) where
  -- An object whose first property is the object itself: no room on the stack is enough.
  pub gobject_serialize_cycle :
      (o : G.GObject) (pspec : ParamSpec G.GType) (pspecs : List (ParamSpec G.GType)) (n : ℕ)
      → G.list_properties (G.type_of o) ≡ pspec ∷ pspecs
      → G.get_property o pspec ≡ GValue.object (some o)
      → json_gobject_serialize J G n o ≡ crash stack_overflow
  unfolding json_gobject_serialize serialize_properties json_serialize_pspec
  gobject_serialize_cycle o pspec pspecs zero p v = refl
  gobject_serialize_cycle o pspec pspecs (suc n) p v =
      rw
        (
          p,
          serialize_properties,
          v,
          json_serialize_pspec,
          gobject_serialize_cycle o pspec pspecs n p v,
        )
        refl
