-- ===== src/Mail/Run.antt =====
-- Any sequence of calls of `SendMail` and `ReadMail` of kernel/pc/mail.c against bounded queues of mails.
use huge_pie.Mail.{Mail, Post, mailbox_size, mail_length, send_mail, read_mail}
use huge_pie.Mail.Boxes.{IsPost}
use huge_pie.Mail.Find.{pointer, AreServed}
use huge_pie.Avl.{Element, Tree}
use huge_pie.Strings.Copy.{take, drop}
use huge_pie.Base.{
  ℕ, zero, suc, ◌≤◌, ◌≡◌, ℤ, pos, negsuc, Option, some, List, [], ◌∷◌, ◌++◌, length, leb, ◌==◌,
  if◌then◌else◌, ◌>>=◌,
}

pub data Op : Type 0 where
  send : (from to : ℤ) (text : List ℕ) → Op
  read : (pid : ℤ) (text : List ℕ) → Op

-- What the caller sees: the code, and the sender and the message that `ReadMail` writes.
abbrev pub Reply : Type 0
Reply = ℤ × ℤ × List ℕ

unfoldable pub step : Op → Tree → Post → Option (Reply × Post)
step (send from to text) head s = do
  (code, s') ← send_mail head from to text s
  some ((code, pos 0, text), s')
step (read pid text) head s = do
  (code, from, text', s') ← read_mail head pid (pos 0) text s
  some ((code, from, text'), s')

-- The queue of the pointer is replaced.
abbrev pub replaced {ℓ} : {A : Type ℓ} → (ℕ → A) → ℕ → A → ℕ → A
replaced q p xs j = if p == j then xs else q j

unfoldable pub queue_send : ℕ → ℤ → ℤ → List ℕ → (ℕ → List Mail) → ℤ × (ℕ → List Mail)
queue_send zero from to text q = (negsuc 0, q)
queue_send (suc i) from to text q =
    if leb mailbox_size (length (q (suc i))) then (negsuc 0, q) else (
      pos 0,
      replaced q (suc i)
          (q (suc i) ++ record { src = from; dst = to; message = take text mail_length } ∷ []),
    )

unfoldable pub queue_read : ℕ → List ℕ → (ℕ → List Mail) → Reply × (ℕ → List Mail)
queue_read zero text q = ((negsuc 0, pos 0, text), q)
queue_read (suc i) text q = elim (q (suc i)) [
  | [] ↦ ((negsuc 0, pos 0, text), q)
  | m ∷ ms ↦
      ((pos 0, m.src, take m.message mail_length ++ drop text mail_length), replaced q (suc i) ms)
]

-- The same call on the queues: a mailbox takes four mails at most, and gives them first in and first out.
unfoldable pub queue_step : Op → List Element → (ℕ → List Mail) → Reply × (ℕ → List Mail)
queue_step (send from to text) keys q =
    let (code, q') = queue_send (pointer keys to) from to text q in ((code, pos 0, text), q')
queue_step (read pid text) keys q = queue_read (pointer keys pid) text q

unfoldable pub run : List Op → Tree → Post → Option (List Reply × Post)
run [] head s = some ([], s)
run (op ∷ ops) head s = do (r, s') ← step op head s; (rs, s'') ← run ops head s'; some (r ∷ rs, s'')

unfoldable pub queue_run : List Op → List Element → (ℕ → List Mail) → List Reply × (ℕ → List Mail)
queue_run [] keys q = ([], q)
queue_run (op ∷ ops) keys q =
    let (r, q') = queue_step op keys q in let (rs, q'') = queue_run ops keys q' in (r ∷ rs, q'')

abbrev pub mails_of : List (ℕ × Mail) → List Mail
mails_of [] = []
mails_of (x ∷ xs) = x.1 ∷ mails_of xs

-- The memory holds these queues, and the mailboxes that the keys lead to.
pub record Shows (keys : List Element) (marker : ℕ → Mail) (q : ℕ → List Mail) (s : Post)
    : Type 0 where
  pub view : ℕ → List (ℕ × Mail)
  pub valid : IsPost marker view s
  pub same : (p : ℕ) → mails_of (view p) ≡ q p
  pub served : AreServed s.boxes keys

-- The reply is the one of the queues, and the memory shows them afterwards.
abbrev pub Agrees : List Element → (ℕ → Mail) → Reply × (ℕ → List Mail) → Reply × Post → Type 0
Agrees keys marker (r, q) (r', s) = (r' ≡ r) × Shows keys marker q s

-- The array of the message has its 100 bytes.
abbrev pub IsCall : Op → Type 0
IsCall (send from to text) = mail_length ≤ length text
IsCall (read pid text) = mail_length ≤ length text
