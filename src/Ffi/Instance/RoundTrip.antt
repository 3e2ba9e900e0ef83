-- ===== src/Ffi/Instance/RoundTrip.antt =====
-- A service that is added and deleted through the C functions (rust/arti-ffi/src/ffi.rs), down to
-- the client's table.
use go_arti.Ffi.Exports.Live.{onion_add-live, onion_del-live}
use go_arti.Prelude.{
  ℕ, ◌+◌, ◌≡◌, refl, ◌∙◌, ◌≢◌, false, none, some, arith, if◌then◌else◌, ==_refl, ok, Bytes, Text,
  text_eq,
}
use go_arti.Prelude.Keys.{number_key, text_key, lookup, insert, lookup-insert}
use go_arti.Text.Utf8.{from_utf8}
use go_arti.Onion.{AddRequest, AddResponse, Crypto}
use go_arti.Onion.Launch.{ServiceCrates}
use go_arti.Client.{Client, onion_add, onion_del}
use go_arti.Client.Services.Adding.{onion_add-del}
use go_arti.Ffi.{World, CInt, Pointer, nonneg, slot, has_nul, required_str}
use go_arti.Ffi.Exports.{Methods, Json, arti_onion_add, arti_onion_del, request_of}
use go_arti.Ffi.Instance.{Outside, client_methods, texts, added_with}

module _ {C : Crypto} {S : ServiceCrates C} (o : Outside C S) (json : Json) where
  abbrev methods : Methods (Client S.Pattern)
  methods = client_methods o

  add_call :
      (c c' : Client S.Pattern) (req : AddRequest) (resp : AddResponse)
      → (let (rng, random) = o.entropy c.calls in
          onion_add C S o.bootstrap rng random req c ≡ (ok resp, c'))
      → methods.onion_add req c ≡ (some (ok resp), c')
  unfolding client_methods texts added_with
  add_call c c' req resp h = rw h

  del_call :
      (id : Text) (c : Client S.Pattern)
      → (onion_del id c).0 ≡ ok tt
      → methods.onion_del id c ≡ (some (ok tt), (onion_del id c).1)
  unfolding client_methods texts
  del_call id c h = rw h

  -- The pointer of the first call, and the code and the world after the second.
  abbrev pub Ended :
      World (Client S.Pattern)
      → ℕ
      → Client S.Pattern
      → Text
      → Text
      → Pointer
      → CInt × World (Client S.Pattern)
      → Type 0
  Ended w a c id s p r =
      (p ≡ some w.next_address)
      × (lookup w.next_address r.1.strings ≡ some s)
      × (r.0 ≡ nonneg 0)
      × (r.1.error_slot ≡ w.error_slot)
      × ((end : Client S.Pattern) × (lookup a r.1.clients ≡ some end)
          × ((j : Text)
              → lookup j end.services ≡ (if text_eq id j then none else lookup j c.services)))
      × ((b : ℕ) → a ≢ b → lookup b r.1.clients ≡ lookup b w.clients)

  -- A service that a controller adds through the C function and then deletes by the ID of the
  -- response, on a live handle and with texts that have no NUL: the first call returns a string
  -- that holds the response, the second returns 0, the error slot is left alone; afterwards the
  -- client holds every service that it held, but none under that ID, and no other client has
  -- changed.
  pub onion_add_del :
      (w : World (Client S.Pattern)) (a : ℕ) (c c' : Client S.Pattern) (req_json : Bytes)
      (req : AddRequest) (resp : AddResponse) (s : Text)
      → lookup a w.clients ≡ some c
      → request_of methods json (some req_json) ≡ ok req
      → (let (rng, random) = o.entropy c.calls in
          onion_add C S o.bootstrap rng random req c ≡ (ok resp, c'))
      → json.encode_response resp ≡ ok s
      → has_nul s ≡ false
      → from_utf8 resp.service_id ≡ some resp.service_id
      → let added_to = arti_onion_add methods json (some a) (some req_json) slot w in
        Ended w a c resp.service_id s added_to.0
          (arti_onion_del methods json (some a) (some resp.service_id) slot added_to.1)
  unfolding required_str
  onion_add_del w a c c' req_json req resp s live parsed added encoded plain id_text =
      let (deleted, services) =
        onion_add-del C S o.bootstrap (o.entropy c.calls).0 (o.entropy c.calls).1 req resp c c'
          added in
      let c'' = (onion_del resp.service_id c').1 in
      let w1 : World (Client S.Pattern) = record w {
        clients = insert a c' w.clients;
        strings = insert w.next_address s w.strings;
        next_address = w.next_address + 1;
      } in
      let first =
        onion_add-live methods json slot w a c c' live req_json req resp s parsed
          (add_call c c' req resp added) encoded plain in
      let second =
        onion_del-live methods json slot w1 a c' c''
          (lookup-insert a a c' w.clients ∙ rw (==_refl a)) resp.service_id resp.service_id
          (rw id_text) (del_call resp.service_id c' deleted) in
      rw (first, second)
        (
          refl,
          lookup-insert w.next_address w.next_address s w.strings ∙ rw (==_refl w.next_address),
          refl,
          refl,
          (c'', lookup-insert a a c'' (insert a c' w.clients) ∙ rw (==_refl a), services),
          λ b differs. ground (
            arith,
            lookup-insert a b c'' (insert a c' w.clients),
            lookup-insert a b c' w.clients,
          ),
        )
