-- ===== src/Ffi/Exports/Live.antt =====
-- The functions for onion services of rust/arti-ffi/src/ffi.rs on a live handle, where all goes
-- well.
use go_arti.Prelude.{ℕ, ◌+◌, ◌≡◌, refl, ◌∙◌, false, none, some, ok, Bytes, Text, codes}
use go_arti.Prelude.Keys.{number_key, lookup, insert}
use go_arti.Onion.{AddRequest, AddResponse}
use go_arti.Ffi.{
  ErrOut, World, nonneg, minus_one, required_str, to_c_string, has_nul, report, null_client, guard,
  guard-live, into_raw,
}
use go_arti.Ffi.Exports.{
  Methods, Json, arti_client_new, arti_onion_add, arti_onion_del, created, request_of, added,
  call_with, labelled,
}

module _ {C : Type 0} (m : Methods C) (json : Json) (err_out : ErrOut) (w : World C) (a : ℕ)
    (c c' : C) (live : lookup a w.clients ≡ some c) where
  added_text :
      (resp : AddResponse) (s : Text) (v : World C)
      → json.encode_response resp ≡ ok s
      → has_nul s ≡ false
      → added m json err_out (ok resp) v ≡ (
        some v.next_address,
        record v { strings = insert v.next_address s v.strings; next_address = v.next_address + 1 },
      )
  unfolding added labelled to_c_string
  added_text resp s v e n = rw (added, e, n)

  pub onion_add-live :
      (req_json : Bytes) (req : AddRequest) (resp : AddResponse) (s : Text)
      → request_of m json (some req_json) ≡ ok req
      → m.onion_add req c ≡ (some (ok resp), c')
      → json.encode_response resp ≡ ok s
      → has_nul s ≡ false
      → arti_onion_add m json (some a) (some req_json) err_out w ≡ (
        some w.next_address,
        record w {
          clients = insert a c' w.clients;
          strings = insert w.next_address s w.strings;
          next_address = w.next_address + 1;
        },
      )
  unfolding arti_onion_add call_with
  onion_add-live req_json req resp s p q e n =
      guard-live err_out none (λ w'. (none, (null_client err_out w').1))
        (call_with (request_of m json (some req_json)) m.onion_add) (added m json err_out) a c c'
        (ok resp) w live (rw p q)
      ∙ added_text resp s _ e n

  pub onion_del-live :
      (service_id : Bytes) (id : Text)
      → required_str (some service_id) (codes "service id") ≡ ok id
      → m.onion_del id c ≡ (some (ok tt), c')
      → arti_onion_del m json (some a) (some service_id) err_out w
        ≡ (nonneg 0, record w { clients = insert a c' w.clients })
  unfolding arti_onion_del call_with report
  onion_del-live service_id id p q =
      guard-live err_out minus_one (null_client err_out)
        (call_with (required_str (some service_id) (codes "service id")) m.onion_del)
        (report err_out) a c c' (ok tt) w live (rw p q)

module _ {C : Type 0} (m : Methods C) (json : Json) where
  -- A client that can be made is owned by its handle.
  pub client_new-live :
      (err_out : ErrOut) (w : World C) (config_json : Bytes) (text : Text) (c : C)
      → required_str (some config_json) (codes "config") ≡ ok text
      → m.new text ≡ some (ok c)
      → arti_client_new m json (some config_json) err_out w ≡ (
        some w.next_address,
        record w { clients = insert w.next_address c w.clients; next_address = w.next_address + 1 },
      )
  unfolding arti_client_new created into_raw guard
  client_new-live err_out w config_json text c h k = rw (arti_client_new, h) (rw (created, k) refl)
