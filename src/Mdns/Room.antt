-- ===== src/Mdns/Room.antt =====
-- The room for the additional records of an answer: `mdns_record_t additional[64]`.
use kdeconnect_nx.Prelude.{
  ◌+◌, ◌≤◌, Bool, true, refl, ◌++◌, ◌≡◌, arith, map, eq_text_refl, length, length-append, List, [],
  ◌∷◌,
}
use kdeconnect_nx.Mdns.{
  ptr, AnnouncedInfo, make_txt_record, make_a_record, address_records, txt_records_of, past_end,
  service_callback,
}

length-map : {A B : Type 0} (f : A → B) (xs : List A) → length (map f xs) ≡ length xs
length-map f [] = refl
length-map f (x ∷ xs) = omega (arith, length-map f xs)

-- The records that are gathered behind that of the service.
pub length-records :
    (self : AnnouncedInfo)
    → length (address_records self ++ txt_records_of self)
      ≡ length self.addresses_v4 + length self.txt_records
unfolding address_records txt_records_of
length-records self = omega (
  arith,
  length-append (map (make_a_record self) self.addresses_v4)
      (map (make_txt_record self) self.txt_records),
  length-map (make_a_record self) self.addresses_v4,
  length-map (make_txt_record self) self.txt_records,
)

-- With sixty addresses and four texts, a question for the service writes past the end of the array.
pub service_callback-past_end :
    (self : AnnouncedInfo) (unicast : Bool)
    → 60 ≤ length self.addresses_v4
    → length self.txt_records ≡ 4
    → service_callback self (record {
      is_question = true;
      record_type = ptr;
      wants_unicast = unicast;
      queried_name = self.service_type;
    })
      ≡ past_end
unfolding service_callback
service_callback-past_end self unicast many texts =
    rw (eq_text_refl self.service_type) (ground (arith, length-records self))
