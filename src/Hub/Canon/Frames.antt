-- ===== src/Hub/Canon/Frames.antt =====
-- What the canonical text of a frame fixes.
use homepilot_core_public.Base.{◌≡◌, [], ◌∷◌, if-holds}
use homepilot_core_public.Base.Text.{Text, codes}
use homepilot_core_public.Hub.Canon.{
  Json, null, boolean, number, text, array, object, Elements, no_elements, element, Members,
  no_members, member, text_less, insert_member, ordered, ordered_elements, ordered_members,
  same_key, without_mac, canonical_bytes,
}
use homepilot_core_public.Hub.Canon.Read.{IsWritten, AreWritten, AllWritten}
use homepilot_core_public.Hub.Canon.Decode.{write-injective}

insert_member-AllWritten :
    (k : Text) (v : Json) (ms : Members)
    → IsWritten v
    → AllWritten ms
    → AllWritten (insert_member k v ms)
unfolding insert_member IsWritten
insert_member-AllWritten k v no_members h hs = (h, tt)
insert_member-AllWritten k v (member j u ms) h (hu, hs) =
    if-holds AllWritten (text_less j k) _ _ (λ _. (hu, insert_member-AllWritten k v ms h hs))
      (λ _. (h, (hu, hs)))

mutual
  unfolding ordered IsWritten

  ordered-IsWritten : (v : Json) → IsWritten v → IsWritten (ordered v)
  ordered-IsWritten null h = h
  ordered-IsWritten (boolean b) h = h
  ordered-IsWritten (number []) h = h
  ordered-IsWritten (number (c ∷ n)) h = h
  ordered-IsWritten (text t) h = h
  ordered-IsWritten (array vs) h = ordered_elements-AreWritten vs h
  ordered-IsWritten (object ms) h = ordered_members-AllWritten ms h

  ordered_elements-AreWritten : (vs : Elements) → AreWritten vs → AreWritten (ordered_elements vs)
  ordered_elements-AreWritten no_elements h = h
  ordered_elements-AreWritten (element v vs) (h, hs) =
      (ordered-IsWritten v h, ordered_elements-AreWritten vs hs)

  ordered_members-AllWritten : (ms : Members) → AllWritten ms → AllWritten (ordered_members ms)
  ordered_members-AllWritten no_members h = h
  ordered_members-AllWritten (member k v ms) (h, hs) =
      insert_member-AllWritten k (ordered v) (ordered_members ms) (ordered-IsWritten v h)
        (ordered_members-AllWritten ms hs)

without_mac-AllWritten : (ms : Members) → AllWritten ms → AllWritten (without_mac ms)
unfolding without_mac IsWritten
without_mac-AllWritten no_members h = h
without_mac-AllWritten (member k v ms) (h, hs) =
    if-holds AllWritten (same_key k (codes "mac")) _ _ (λ _. without_mac-AllWritten ms hs)
      (λ _. (h, without_mac-AllWritten ms hs))

object-members : (ms ns : Members) → object ms ≡ object ns → ms ≡ ns
object-members ms ns e = cc e

-- Two frames with the same canonical text, in which every number is a text of numeric characters,
-- have the same fields with the same values, but for the MAC, once the keys of each dictionary are
-- put in order.
pub canonical_bytes-injective :
    (f g : Members)
    → AllWritten f
    → AllWritten g
    → canonical_bytes f ≡ canonical_bytes g
    → ordered_members (without_mac f) ≡ ordered_members (without_mac g)
unfolding canonical_bytes ordered IsWritten
canonical_bytes-injective f g hf hg e =
    let fm = ordered_members (without_mac f) in
    let gm = ordered_members (without_mac g) in
    object-members fm gm (
      write-injective (object fm) (object gm)
        (ordered_members-AllWritten (without_mac f) (without_mac-AllWritten f hf))
        (ordered_members-AllWritten (without_mac g) (without_mac-AllWritten g hg)) e)
