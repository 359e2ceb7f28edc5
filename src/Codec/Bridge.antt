-- ===== src/Codec/Bridge.antt =====
-- The object codec that the marshalling code calls, filled with that of lib/searpc-utils.c.
use libsearpc.Prelude.{ℕ, refl, none, some, []}
use libsearpc.Jansson.{Jansson}
use libsearpc.Types.{Run, done, crash, Objects}
use libsearpc.Codec.System.{GObjects}
use libsearpc.Codec.Fits.{Fits}
use libsearpc.Codec.Serialize.{json_gobject_serialize}
use libsearpc.Codec.Deserialize.{json_gobject_deserialize}
use libsearpc.Codec.RoundTrip.{deserialize-serialize}
use libsearpc.Rpc.Reply.Objs.{RoundTrips}

module _ (J : Jansson) (G : GObjects J) where
  -- The result of a call that returns; a default where the stack is too small.
  abbrev result {ℓ} : {A : Type ℓ} → A → Run A → A
  result default (done a) = a
  result default (crash fault) = default

  -- The codec with room for `stack` nested calls. json_object_iter of NULL gives no member.
  abbrev pub codec : ℕ → Objects J
  codec stack = record {
    GObject = G.GObject;
    GType = G.GType;
    type_invalid = G.type_invalid;
    is_invalid = G.is_invalid;
    json_gobject_serialize = λ o. result J.json_null (json_gobject_serialize J G stack o);
    json_gobject_deserialize = λ gtype j. elim j [
      | none ↦ G.new_object gtype []
      | some object ↦ result none (json_gobject_deserialize J G stack gtype object)
    ];
  }

  pub codec-RoundTrips :
      (stack : ℕ) (o : G.GObject) → Fits J G stack o → RoundTrips J (codec stack) (G.type_of o) o
  codec-RoundTrips stack o h =
      let (j, s, t, d) = deserialize-serialize J G stack o h in
      record { is_object = rw s (λ e. cc (t, e)); back = rw (s, d) refl }
