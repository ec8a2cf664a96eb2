-- ===== src/Team/Mailbox.antt =====
-- daemon/subagent_messages.go: the mailboxes of the running daemon, appended to by
-- `SendAgentMessage` and emptied by `drainAgentMailbox`.
use dire_agent.Prelude.{
  ◌≡◌, ap, sym, ◌∙◌, Bool-cases, Option, none, some, List, [], ◌∷◌, ◌++◌, arith, inl, inr,
  if◌then◌else◌,
}
use mathlib.Core.List.{append-nil, append_assoc}
use dire_agent.Prelude.Text.{Text, text_eq, text_eq_iff}
use dire_agent.Prelude.Assoc.{lookup, insert, delete, lookup-insert, lookup-delete}

-- `agentteam.Message`, without its time stamp.
pub record Message : Type 0 where
  pub id : Text
  pub from_id : Text
  pub to_id : Text
  pub content : Text

abbrev pub Mailboxes : Type 0
Mailboxes = List (Text × List Message)

abbrev or_none : Option (List Message) → List Message
or_none none = []
or_none (some ms) = ms

-- `m.teamMailboxes[id]`.
unfoldable pub mailbox : Text → Mailboxes → List Message
unfolding lookup
mailbox id boxes = or_none (lookup id boxes)

unfoldable pub deliver : Message → Mailboxes → Mailboxes
unfolding mailbox insert
deliver m boxes = insert m.to_id (mailbox m.to_id boxes ++ m ∷ []) boxes

unfoldable pub drain_agent_mailbox : Text → Mailboxes → Mailboxes × List Message
unfolding mailbox delete
drain_agent_mailbox id boxes = (delete id boxes, mailbox id boxes)

-- What the agents of a team do to the mailboxes, in the order of the lock.
pub data Mail : Type 0 where
  sends : Message → Mail
  drains : Text → Mail

-- What a history of mail hands to an agent, and leaves in its box.
unfoldable pub received : Text → List Mail → Mailboxes → List Message
unfolding deliver drain_agent_mailbox
received id [] boxes = mailbox id boxes
received id (sends m ∷ mail) boxes = received id mail (deliver m boxes)
received id (drains j ∷ mail) boxes =
    if text_eq j id
    then mailbox id boxes ++ received id mail (drain_agent_mailbox j boxes).0
    else received id mail (drain_agent_mailbox j boxes).0

-- The messages of a history to an agent, in their order.
unfoldable pub addressed : Text → List Mail → List Message
addressed id [] = []
addressed id (sends m ∷ mail) =
    if text_eq m.to_id id then m ∷ addressed id mail else addressed id mail
addressed id (drains j ∷ mail) = addressed id mail

mailbox-deliver :
    (id : Text) (m : Message) (boxes : Mailboxes)
    → mailbox id (deliver m boxes)
      ≡ (if text_eq m.to_id id then mailbox id boxes ++ m ∷ [] else mailbox id boxes)
unfolding mailbox deliver
mailbox-deliver id m boxes = ground (
  arith,
  lookup-insert m.to_id id (or_none (lookup m.to_id boxes) ++ m ∷ []) boxes,
  text_eq_iff m.to_id id,
)

mailbox-drain :
    (id j : Text) (boxes : Mailboxes)
    → mailbox id (drain_agent_mailbox j boxes).0 ≡ (if text_eq j id then [] else mailbox id boxes)
unfolding mailbox drain_agent_mailbox
mailbox-drain id j boxes = ground (arith, lookup-delete j id boxes)

-- No message is lost, made up, repeated or reordered: over any history of deliveries and drains, what
-- an agent drains and what is left in its box are what its box held before and the messages that were
-- sent to it since, in the order in which they were sent.
pub received-addressed :
    (id : Text) (mail : List Mail) (boxes : Mailboxes)
    → received id mail boxes ≡ mailbox id boxes ++ addressed id mail
unfolding received addressed
received-addressed id [] boxes = sym (append-nil (mailbox id boxes))
received-addressed id (sends m ∷ mail) boxes =
    received-addressed id mail (deliver m boxes) ∙ (elim (Bool-cases (text_eq m.to_id id)) [
      | inl e ↦
          rw (mailbox-deliver id m boxes)
            (rw e (append_assoc (mailbox id boxes) (m ∷ []) (addressed id mail)))
      | inr e ↦ rw (mailbox-deliver id m boxes) (rw e)
    ])
received-addressed id (drains j ∷ mail) boxes =
    let rest = received-addressed id mail (drain_agent_mailbox j boxes).0 in
    elim (Bool-cases (text_eq j id)) [
      | inl e ↦ rw e (ap (◌++◌ (mailbox id boxes)) (rest ∙ rw (mailbox-drain id j boxes) (rw e)))
      | inr e ↦ rw e (rest ∙ rw (mailbox-drain id j boxes) (rw e))
    ]
