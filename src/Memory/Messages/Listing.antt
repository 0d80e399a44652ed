-- ===== src/Memory/Messages/Listing.antt =====
-- internal/store/memory/memory.go: ListMessages. The compliance store's blocks are an argument.
-- sort.Search is the first index whose message has reached `before_seq`; the sequence numbers of a
-- conversation rise along its slice.
use clixor_backend.Prelude.{
  ℕ, zero, suc, ◌+◌, ◌-◌, ◌≤◌, ◌≡◌, Option, none, some, List, [], ◌∷◌, Bool, false, not, ◌&&◌, ◌||◌,
  if◌then◌else◌, ◌==◌, nat_eq, ltb, leb, length, take, select, All, All-take, All-select,
  length-take-le, arith, if_cases, if_both, inl, inr, Bool-cases, subst,
}
use clixor_backend.Map.{get}
use clixor_backend.Domain.{Uuid, Result, ok, err, invalid, forbidden}
use clixor_backend.Domain.Chat.{Message}
use clixor_backend.Compliance.{Blocks, blocked_between}
use clixor_backend.Memory.{Store}
use clixor_backend.Memory.Outbox.{is_set}
use clixor_backend.Memory.Invites.{member_of}
use clixor_backend.Memory.Messages.{messages_or_none}

-- store.ListMessagesParams
pub record ListMessagesParams : Type 0 where
  pub conversation_id : Uuid
  pub user_id : Uuid
  pub before_seq : Option ℕ
  pub after_seq : Option ℕ
  pub limit : ℕ

-- MaxMessagePageSize
abbrev pub max_message_page_size : ℕ
max_message_page_size = 500

abbrev pub set_to_zero : Option ℕ → Bool
set_to_zero none = false
set_to_zero (some n) = n == 0

-- ListMessagesParams.Validate fails.
unfoldable pub list_params_invalid : ListMessagesParams → Bool
list_params_invalid p =
    p.conversation_id == 0
    || p.user_id == 0
    || p.limit == 0
    || ltb max_message_page_size p.limit
    || (is_set p.before_seq && is_set p.after_seq)
    || set_to_zero p.before_seq

unfoldable pub visible : Blocks → Uuid → List Message → List Message
visible blocks user_id ms = select (λ m. not (blocked_between user_id m.sender_id blocks)) ms

-- The index at which the page ends.
unfoldable pub page_end : Option ℕ → List Message → ℕ
page_end none ms = length ms
page_end (some before_seq) [] = 0
page_end (some before_seq) (m ∷ ms) =
    let rest = page_end (some before_seq) ms in if leb before_seq m.seq then 0 else rest + 1

abbrev pub drop : ℕ → List Message → List Message
drop zero ms = ms
drop (suc n) [] = []
drop (suc n) (m ∷ ms) = drop n ms

-- messages[max(0, end-limit):end]
unfoldable pub last_page : ℕ → ℕ → List Message → List Message
last_page limit end ms = take (end - (end - limit)) (drop (end - limit) ms)

unfoldable pub page_of : ListMessagesParams → Option ℕ → List Message → List Message
page_of p none ms = last_page p.limit (page_end p.before_seq ms) ms
page_of p (some after_seq) ms = take p.limit (select (λ m. ltb after_seq m.seq) ms)

unfoldable pub list_messages : ListMessagesParams → Blocks → Store → Result (List Message)
list_messages p blocks s =
    if list_params_invalid p
    then err invalid
    else if is_set (member_of p.conversation_id p.user_id s)
    then ok (
        page_of p p.after_seq
          (visible blocks p.user_id (messages_or_none (get s.messages p.conversation_id))))
    else err forbidden

All-drop : (P : Message → Type 0) (n : ℕ) (ms : List Message) → All P ms → All P (drop n ms)
All-drop P zero ms h = h
All-drop P (suc n) [] h = tt
All-drop P (suc n) (m ∷ ms) h = All-drop P n ms h.1

page_of-All :
    (P : Message → Type 0) (p : ListMessagesParams) (o : Option ℕ) (ms : List Message)
    → All P ms
    → All P (page_of p o ms)
unfolding page_of last_page
page_of-All P p none ms h = All-take P _ _ (All-drop P _ ms h)
page_of-All P p (some n) ms h = All-take P p.limit _ (All-select P _ ms h)

length-page_of :
    (p : ListMessagesParams) (o : Option ℕ) (ms : List Message) → length (page_of p o ms) ≤ p.limit
unfolding page_of last_page
length-page_of p none ms = omega (
  arith,
  length-take-le (page_end p.before_seq ms - (page_end p.before_seq ms - p.limit))
      (drop (page_end p.before_seq ms - p.limit) ms),
)
length-page_of p (some n) ms = length-take-le p.limit (select (λ m. ltb n m.seq) ms)

Unblocked : Blocks → Uuid → Message → Type 0
Unblocked blocks user_id m = blocked_between user_id m.sender_id blocks ≡ false

visible-Unblocked :
    (blocks : Blocks) (user_id : Uuid) (ms : List Message)
    → All (Unblocked blocks user_id) (visible blocks user_id ms)
unfolding visible Unblocked
visible-Unblocked blocks user_id [] = tt
visible-Unblocked blocks user_id (m ∷ ms) =
    elim (Bool-cases (blocked_between user_id m.sender_id blocks)) [
      | inl e ↦ rw e (visible-Unblocked blocks user_id ms)
      | inr e ↦ rw e (e, visible-Unblocked blocks user_id ms)
    ]

-- A page of messages is bounded and filtered: an answer of ListMessages, whichever way it pages,
-- holds at most `limit` messages, and at most 500, none of whose senders has blocked the reader or
-- is blocked by the reader.
pub list_messages_filtered :
    (p : ListMessagesParams) (blocks : Blocks) (s : Store) (ms : List Message)
    → list_messages p blocks s ≡ ok ms
    → (length ms ≤ p.limit)
      × (length ms ≤ 500)
      × All (λ m. blocked_between p.user_id m.sender_id blocks ≡ false) ms
unfolding list_messages
list_messages_filtered p blocks s ms =
    if_cases {A = Result (List Message)} (λ r. r ≡ ok ms → Goal ms) (list_params_invalid p) _ _
      (λ _ h. cc)
      (λ e.
        if_both {A = Result (List Message)} (λ r. r ≡ ok ms → Goal ms)
          (is_set (member_of p.conversation_id p.user_id s)) _ _ (λ h. subst Goal (cc) (page e))
          (λ h. cc))
  where
    Goal : List Message → Type 0
    Goal xs =
        (length xs ≤ p.limit)
        × (length xs ≤ 500)
        × All (λ m. blocked_between p.user_id m.sender_id blocks ≡ false) xs

    seen : List Message
    seen = visible blocks p.user_id (messages_or_none (get s.messages p.conversation_id))

    page : list_params_invalid p ≡ false → Goal (page_of p p.after_seq seen)
    page e = (
      length-page_of p p.after_seq seen,
      unfold list_params_invalid in ground (arith, length-page_of p p.after_seq seen, e),
      page_of-All (λ m. blocked_between p.user_id m.sender_id blocks ≡ false) p p.after_seq seen
          (unfold Unblocked in visible-Unblocked blocks p.user_id _),
    )
