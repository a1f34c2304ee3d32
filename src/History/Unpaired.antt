-- ===== src/History/Unpaired.antt =====
-- What `strip_unpaired_tool_parts` leaves.
use just_another_coding_agen.Base.{
  ◌≡◌, refl, ap, ◌∙◌, sym, String, Bool, true, false, not, ◌&&◌, List, [], ◌∷◌, ◌++◌, keep,
  contains, ◌⊎◌, ◌==◌, all, arith, eq_iff, eq_refl, Bool-cases, inl, inr,
}
use just_another_coding_agen.Session.Messages.{
  MessagePart, system_prompt, user_prompt, text_part, thinking, tool_call, tool_return,
  retry_prompt, ModelMessage, model_request, model_response, parts,
}
use just_another_coding_agen.History.Sanitize.{
  all_parts, call_ids, return_ids, differs, is_unpaired, none_unpaired, is_dropped, with_parts,
  drop_parts, strip_unpaired_tool_parts,
}

-- A removal of ids takes exactly those calls and returns out.
call_ids-keep :
    (unpaired : String → Bool) (ps : List MessagePart) (id : String)
    → contains id (call_ids (keep (λ p. not (is_dropped unpaired p)) ps))
      ≡ (contains id (call_ids ps) && not (unpaired id))
unfolding call_ids is_dropped
call_ids-keep unpaired [] id = refl
call_ids-keep unpaired (system_prompt t ∷ ps) id = call_ids-keep unpaired ps id
call_ids-keep unpaired (user_prompt t ∷ ps) id = call_ids-keep unpaired ps id
call_ids-keep unpaired (text_part t ∷ ps) id = call_ids-keep unpaired ps id
call_ids-keep unpaired (thinking t ∷ ps) id = call_ids-keep unpaired ps id
call_ids-keep unpaired (tool_call i name ∷ ps) id = elim (Bool-cases (unpaired i)) [
  | inl gone ↦ ground (arith, call_ids-keep unpaired ps id, eq_iff i id)
  | inr stays ↦ ground (arith, call_ids-keep unpaired ps id, eq_iff i id)
]
call_ids-keep unpaired (tool_return i name ∷ ps) id = elim (Bool-cases (unpaired i)) [
  | inl gone ↦ ground (arith, call_ids-keep unpaired ps id)
  | inr stays ↦ ground (arith, call_ids-keep unpaired ps id)
]
call_ids-keep unpaired (retry_prompt i ∷ ps) id = call_ids-keep unpaired ps id

return_ids-keep :
    (unpaired : String → Bool) (ps : List MessagePart) (id : String)
    → contains id (return_ids (keep (λ p. not (is_dropped unpaired p)) ps))
      ≡ (contains id (return_ids ps) && not (unpaired id))
unfolding return_ids is_dropped
return_ids-keep unpaired [] id = refl
return_ids-keep unpaired (system_prompt t ∷ ps) id = return_ids-keep unpaired ps id
return_ids-keep unpaired (user_prompt t ∷ ps) id = return_ids-keep unpaired ps id
return_ids-keep unpaired (text_part t ∷ ps) id = return_ids-keep unpaired ps id
return_ids-keep unpaired (thinking t ∷ ps) id = return_ids-keep unpaired ps id
return_ids-keep unpaired (tool_return i name ∷ ps) id = elim (Bool-cases (unpaired i)) [
  | inl gone ↦ ground (arith, return_ids-keep unpaired ps id, eq_iff i id)
  | inr stays ↦ ground (arith, return_ids-keep unpaired ps id, eq_iff i id)
]
return_ids-keep unpaired (tool_call i name ∷ ps) id = elim (Bool-cases (unpaired i)) [
  | inl gone ↦ ground (arith, return_ids-keep unpaired ps id)
  | inr stays ↦ ground (arith, return_ids-keep unpaired ps id)
]
return_ids-keep unpaired (retry_prompt i ∷ ps) id = return_ids-keep unpaired ps id

pub keep-append {ℓ} :
    {A : Type ℓ} (p : A → Bool) (xs ys : List A) → keep p (xs ++ ys) ≡ keep p xs ++ keep p ys
keep-append p [] ys = refl
keep-append p (x ∷ xs) ys = ground (arith, keep-append p xs ys)

parts-with_parts : (m : ModelMessage) (qs : List MessagePart) → parts (with_parts m qs) ≡ qs
parts-with_parts (model_request instructions ps) qs = refl
parts-with_parts (model_response ps) qs = refl

drop_one :
    (unpaired : String → Bool) (m : ModelMessage) (ms : List ModelMessage) (kept : List MessagePart)
    → keep (λ p. not (is_dropped unpaired p)) (parts m) ≡ kept
    → all_parts (drop_parts unpaired (m ∷ ms)) ≡ kept ++ all_parts (drop_parts unpaired ms)
unfolding drop_parts
drop_one unpaired m ms [] h = rw (h, drop_parts) refl
drop_one unpaired m ms (k ∷ ks) h =
    rw (h, drop_parts)
      (ap (λ qs. qs ++ all_parts (drop_parts unpaired ms)) (parts-with_parts m (k ∷ ks)))

pub drop_parts-keep :
    (unpaired : String → Bool) (ms : List ModelMessage)
    → all_parts (drop_parts unpaired ms) ≡ keep (λ p. not (is_dropped unpaired p)) (all_parts ms)
unfolding drop_parts
drop_parts-keep unpaired [] = refl
drop_parts-keep unpaired (m ∷ ms) =
    drop_one unpaired m ms _ refl
    ∙ ap (λ t. keep (λ p. not (is_dropped unpaired p)) (parts m) ++ t) (drop_parts-keep unpaired ms)
    ∙ sym (keep-append (λ p. not (is_dropped unpaired p)) (parts m) (all_parts ms))

-- What is not dropped is paired.
differs-or_eq : (a b : Bool) → (a && not (differs a b)) ≡ (b && not (differs a b))
differs-or_eq a b = ground arith

pub contained_passes :
    (p : String → Bool) (ids : List String) (id : String)
    → all p ids ≡ true
    → contains id ids ≡ true
    → p id ≡ true
contained_passes p [] id h c = cc
contained_passes p (i ∷ ids) id h c = elim (Bool-cases (i == id)) [
  | inl same ↦
      let e : i ≡ id = (eq_iff i id).0 same in let at_i : p i ≡ true = ground arith in rw e at at_i
  | inr other ↦ contained_passes p ids id (ground arith) (ground arith)
]

-- The histories in which the tool calls are those that return.
abbrev pub Paired : List ModelMessage → Type 0
Paired ms =
    (id : String) → contains id (call_ids (all_parts ms)) ≡ contains id (return_ids (all_parts ms))

nothing_unpaired :
    (ps : List MessagePart) (id : String)
    → none_unpaired ps ≡ true
    → contains id (call_ids ps) ≡ contains id (return_ids ps)
unfolding none_unpaired is_unpaired
nothing_unpaired ps id h = elim (Bool-cases (contains id (call_ids ps))) [
  | inl called ↦
      let p =
        contained_passes (λ i. not (is_unpaired ps i)) (call_ids ps) id (ground arith) called in
      ground arith
  | inr not_called ↦ elim (Bool-cases (contains id (return_ids ps))) [
    | inl returned ↦
        let p =
          contained_passes (λ i. not (is_unpaired ps i)) (return_ids ps) id (ground arith)
            returned in
        ground arith
    | inr not_returned ↦ ground arith
  ]
]

unpaired_of_eq :
    (ps : List MessagePart) (id : String)
    → contains id (call_ids ps) ≡ contains id (return_ids ps)
    → is_unpaired ps id ≡ false
unfolding is_unpaired
unpaired_of_eq ps id h = ground arith

dropped-Paired : (ms : List ModelMessage) → Paired (drop_parts (is_unpaired (all_parts ms)) ms)
unfolding is_unpaired
dropped-Paired ms id = rw (drop_parts-keep (is_unpaired (all_parts ms)) ms) (
    call_ids-keep (is_unpaired (all_parts ms)) (all_parts ms) id
    ∙ differs-or_eq (contains id (call_ids (all_parts ms)))
        (contains id (return_ids (all_parts ms)))
    ∙ sym (return_ids-keep (is_unpaired (all_parts ms)) (all_parts ms) id))

pub strip_unpaired-cases :
    (ms : List ModelMessage)
    → ((none_unpaired (all_parts ms) ≡ true) × (strip_unpaired_tool_parts ms ≡ ms))
      ⊎ (strip_unpaired_tool_parts ms ≡ drop_parts (is_unpaired (all_parts ms)) ms)
unfolding strip_unpaired_tool_parts
strip_unpaired-cases ms = elim (Bool-cases (none_unpaired (all_parts ms))) [
  | inl e ↦ inl (e, rw (e, strip_unpaired_tool_parts) refl)
  | inr e ↦ inr (rw (e, strip_unpaired_tool_parts) refl)
]

-- No part but an unpaired call or return goes, and the parts that stay keep their order.
keeps_all :
    (unpaired : String → Bool) (ps : List MessagePart)
    → ((id : String) → contains id (call_ids ps) ≡ true → unpaired id ≡ false)
    → ((id : String) → contains id (return_ids ps) ≡ true → unpaired id ≡ false)
    → keep (λ p. not (is_dropped unpaired p)) ps ≡ ps
unfolding call_ids return_ids is_dropped
keeps_all unpaired [] c r = refl
keeps_all unpaired (system_prompt t ∷ ps) c r =
    ap (λ qs. system_prompt t ∷ qs) (keeps_all unpaired ps c r)
keeps_all unpaired (user_prompt t ∷ ps) c r =
    ap (λ qs. user_prompt t ∷ qs) (keeps_all unpaired ps c r)
keeps_all unpaired (text_part t ∷ ps) c r = ap (λ qs. text_part t ∷ qs) (keeps_all unpaired ps c r)
keeps_all unpaired (thinking t ∷ ps) c r = ap (λ qs. thinking t ∷ qs) (keeps_all unpaired ps c r)
keeps_all unpaired (retry_prompt i ∷ ps) c r =
    ap (λ qs. retry_prompt i ∷ qs) (keeps_all unpaired ps c r)
keeps_all unpaired (tool_call i name ∷ ps) c r =
    let stays : unpaired i ≡ false = c i (ground (arith, eq_refl i)) in
    ground (arith, keeps_all unpaired ps (λ id h. c id (ground arith)) r)
keeps_all unpaired (tool_return i name ∷ ps) c r =
    let stays : unpaired i ≡ false = r i (ground (arith, eq_refl i)) in
    ground (arith, keeps_all unpaired ps c (λ id h. r id (ground arith)))

strip_unpaired-keeps :
    (ms : List ModelMessage)
    → all_parts (strip_unpaired_tool_parts ms)
      ≡ keep (λ p. not (is_dropped (is_unpaired (all_parts ms)) p)) (all_parts ms)
strip_unpaired-keeps ms = elim (strip_unpaired-cases ms) [
  | inl (empty, same) ↦ rw same (
      sym (
        keeps_all (is_unpaired (all_parts ms)) (all_parts ms)
          (λ id h. paired_id (all_parts ms) id empty) (λ id h. paired_id (all_parts ms) id empty)))
  | inr dropped ↦ rw dropped (drop_parts-keep (is_unpaired (all_parts ms)) ms)
]
  where
    paired_id :
        (ps : List MessagePart) (id : String) → none_unpaired ps ≡ true → is_unpaired ps id ≡ false
    paired_id ps id h = unpaired_of_eq ps id (nothing_unpaired ps id h)

-- After `strip_unpaired_tool_parts` the tool calls of a history are those that return, by their
-- ids. No part is lost but the calls that do not return and the returns without a call, and the
-- others keep their order.
pub strip_unpaired-Paired :
    (ms : List ModelMessage)
    → Paired (strip_unpaired_tool_parts ms)
      × (all_parts (strip_unpaired_tool_parts ms)
          ≡ keep (λ p. not (is_dropped (is_unpaired (all_parts ms)) p)) (all_parts ms))
strip_unpaired-Paired ms = (
  elim (strip_unpaired-cases ms) [
    | inl (empty, same) ↦ λ id. rw same (nothing_unpaired (all_parts ms) id empty)
    | inr dropped ↦ λ id. rw dropped (dropped-Paired ms id)
  ],
  strip_unpaired-keeps ms,
)
