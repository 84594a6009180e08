-- ===== src/Managers/Mailbox/Delivery.antt =====
-- Every message of the mailbox is handed over once.
use netherbrain.Prelude.{
  ℕ, ◌+◌, String, Bool, List, [], ◌∷◌, ◌++◌, ◌==◌, ◌≡◌, refl, arith, if◌then◌else◌, ◌&&◌, keep,
  count_if, length, eq_iff,
}
use netherbrain.Managers.Mailbox.{
  MailboxMessage, Table, post_message, is_pending, drain_undelivered, count_pending, Call, posts,
  drains, step, run,
}

-- A drain empties the conversation's mailbox, returns as many messages as were pending there, and
-- changes no other conversation's count.
pub count_pending-drain :
    (c j session : String) (t : Table)
    → (count_pending j (drain_undelivered c session t).0
        ≡ (if c == j then 0 else count_pending j t))
      × (length (drain_undelivered c session t).1 ≡ count_pending c t)
unfolding drain_undelivered count_pending count_if keep is_pending
count_pending-drain c j session [] = ground arith
count_pending-drain c j session (m ∷ t) = ground (
  arith,
  count_pending-drain c j session t,
  eq_iff c j,
  eq_iff m.conversation_id c,
  eq_iff m.conversation_id j,
)

-- The messages with an id that wait in a conversation.
unfoldable pub waiting : String → String → Table → ℕ
waiting id c t = count_if (λ m. m.message_id == id && is_pending c m) t

-- The messages with an id and a conversation among those handed over.
unfoldable pub handed : String → String → List MailboxMessage → ℕ
handed id c ms = count_if (λ m. m.message_id == id && m.conversation_id == c) ms

-- The posts of an id to a conversation among the calls.
unfoldable pub posted : String → String → List Call → ℕ
posted id c [] = 0
posted id c (posts i time conversation source type name ∷ cs) =
    if i == id && conversation == c then 1 + posted id c cs else posted id c cs
posted id c (drains conversation session ∷ cs) = posted id c cs

count_if-append :
    {A : Type 0} (p : A → Bool) (xs ys : List A)
    → count_if p (xs ++ ys) ≡ count_if p xs + count_if p ys
unfolding count_if
count_if-append p [] ys = omega arith
count_if-append p (x ∷ xs) ys = ground (arith, count_if-append p xs ys)

post-waiting :
    (id c i : String) (time : ℕ) (j source : String) (type : _) (name : String) (t : Table)
    → waiting id c (post_message i time j source type name t)
      ≡ (if i == id && j == c then 1 + waiting id c t else waiting id c t)
unfolding waiting post_message is_pending count_if
post-waiting id c i time j source type name t =
    rw (count_if-append (λ m. m.message_id == id && is_pending c m) t) (ground arith)

drain-waiting :
    (id c j session : String) (t : Table)
    → waiting id c (drain_undelivered j session t).0 + handed id c (drain_undelivered j session t).1
      ≡ waiting id c t
unfolding waiting handed drain_undelivered is_pending count_if keep
drain-waiting id c j session [] = ground arith
drain-waiting id c j session (m ∷ t) =
    ground (
      arith,
      drain-waiting id c j session t,
      eq_iff m.conversation_id c,
      eq_iff m.conversation_id j,
    )

handed-nil : (id c : String) → handed id c [] ≡ 0
unfolding handed count_if
handed-nil id c = refl

handed-append :
    (id c : String) (xs ys : List MailboxMessage)
    → handed id c (xs ++ ys) ≡ handed id c xs + handed id c ys
unfolding handed
handed-append id c xs ys = count_if-append (λ m. m.message_id == id && m.conversation_id == c) xs ys

-- Through any sequence of posts and drains, of every conversation: the messages with an id that
-- wait at the end, and those handed over on the way, are together as many as waited at the start
-- and were posted on the way. Nothing is lost and nothing is handed over twice.
pub run-waiting :
    (id c : String) (cs : List Call) (t : Table)
    → waiting id c (run t cs).0 + handed id c (run t cs).1 ≡ waiting id c t + posted id c cs
unfolding run step posted
run-waiting id c [] t = omega (arith, handed-nil id c)
run-waiting id c (posts i time j source type name ∷ cs) t = ground (
  arith,
  post-waiting id c i time j source type name t,
  run-waiting id c cs (post_message i time j source type name t),
)
run-waiting id c (drains j session ∷ cs) t = omega (
  arith,
  drain-waiting id c j session t,
  handed-append id c (drain_undelivered j session t).1 (run (drain_undelivered j session t).0 cs).1,
  run-waiting id c cs (drain_undelivered j session t).0,
)
