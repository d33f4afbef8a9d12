-- ===== src/Mail.antt =====
-- kernel/pc/mail.c and include/zjunix/mail.h: mailboxes of processes. The key of a node of the tree holds
-- the pointer to its mailbox: 0 for null, and otherwise one more than its place in `boxes`. The mails are
-- nodes of one heap. A function that takes `mailbox_owner **head` returns the new tree. What `kmalloc` gives
-- is written before it is read. `none` is a use of a null pointer.

pub mod Queue
pub mod Boxes
pub mod Find
pub mod Run
pub mod Holds
pub mod Refine
pub mod Registry
mod Tests
use huge_pie.Base.{
  ℕ, zero, suc, ◌+◌, ◌-◌, ℤ, pos, negsuc, Bool, true, not, ◌||◌, Option, none, some, List, [], ◌∷◌,
  ◌++◌, length, get_elem?, set, leb, ◌==◌, ltb_ℤ, if◌then◌else◌, ◌>>=◌,
}
use huge_pie.Avl.{Element, Tree, null, node, create_node, insert, delete, search, non_null}
use huge_pie.Strings.{kernel_memcpy}
use huge_pie.Links.{Node, load, alloc, set_next, set_previous, set_item, turn_back}

abbrev pub mailbox_size : ℕ
mailbox_size = 4

abbrev pub mail_length : ℕ
mail_length = 100

-- `struct mail` without its links.
pub record Mail : Type 0 where
  pub src : ℤ
  pub dst : ℤ
  pub message : List ℕ

pub record Mailbox : Type 0 where
  pub head : ℕ
  pub tail : ℕ
  pub count : ℕ

-- The memory of the mailboxes and of the mails.
pub record Post : Type 0 where
  pub boxes : List Mailbox
  pub mails : List (Node Mail)

abbrev pub blank_text : ℕ → List ℕ
blank_text zero = []
blank_text (suc n) = 0 ∷ blank_text n

-- A new object.
abbrev pub blank : Node Mail
blank = record {
  next = 0;
  previous = 0;
  item = record { src = pos 0; dst = pos 0; message = blank_text mail_length };
}

-- `*p` of a pointer to a mailbox.
unfoldable pub deref : List Mailbox → ℕ → Option Mailbox
deref boxes zero = none
deref boxes (suc i) = get_elem? boxes i

unfoldable pub assign : List Mailbox → ℕ → Mailbox → List Mailbox
assign boxes zero box = boxes
assign boxes (suc i) box = set boxes i box

-- `element.p = NULL; element.value = pid;`
abbrev pub owner : ℤ → Element
owner pid = record { value = pid; p = 0 }

unfoldable pub init_mailbox : Bool → Tree
init_mailbox mem = create_node mem (owner (negsuc 0)) null null

unfoldable pub find_mailbox : Tree → ℤ → Tree
find_mailbox head pid =
    if not (non_null head) || ltb_ℤ pid (pos 0) then null else search head (owner pid)

unfoldable pub check_mailbox : Tree → ℤ → Bool
check_mailbox head pid = non_null (find_mailbox head pid)

-- A pass of the loop of `Register_mailbox`: a new head node, and an empty queue.
unfoldable pub new_head : Mailbox → List (Node Mail) → Option (Mailbox × List (Node Mail))
new_head box h = do
  (h1, a) ← some (alloc h blank)
  h2 ← set_item h1 a (λ m. record m { src = negsuc 0; dst = negsuc 0 })
  h3 ← set_previous h2 a 0
  h4 ← set_next h3 a 0
  some (record { head = a; tail = a; count = 0 }, h4)

unfoldable pub new_heads : ℕ → Mailbox → List (Node Mail) → Option (Mailbox × List (Node Mail))
new_heads zero box h = some (box, h)
new_heads (suc n) box h = do (box', h') ← new_head box h; new_heads n box' h'

unfoldable pub register_mailbox : Tree → ℤ → Post → Option (ℤ × Tree × Post)
register_mailbox head pid s =
    if not (non_null head) || (ltb_ℤ pid (pos 0) || non_null (find_mailbox head pid))
    then some (negsuc 0, head, s)
    else (do
      (box, h) ← new_heads mailbox_size (record { head = 0; tail = 0; count = 0 }) s.mails
      head' ← insert true head (record { value = pid; p = suc (length s.boxes) })
      some (pos 0, head', record { boxes = s.boxes ++ box ∷ []; mails = h }))

-- `while (first->next != NULL) first->next = first->next->next;`, for a mailbox of at most `mailbox_size` mails
unfoldable pub drain : ℕ → ℕ → List (Node Mail) → Option (List (Node Mail))
drain zero first h = none
drain (suc fuel) first h = do
  n ← load h first
  elim n.next [
    | zero ↦ some h
    | suc q ↦ (do t ← load h (suc q); h' ← set_next h first t.next; drain fuel first h')
  ]

unfoldable pub destroy_mailbox : Tree → ℤ → Post → Option (ℤ × Tree × Post)
destroy_mailbox head pid s =
    if not (non_null head) || ltb_ℤ pid (pos 0)
    then some (negsuc 0, head, s)
    else elim (find_mailbox head pid) [
      | null ↦ some (negsuc 0, head, s)
      | node k h l r ↦ (do
        box ← deref s.boxes k.p
        elim box.head [
          | zero ↦ some (negsuc 0, head, s)
          | suc q ↦ (do
            mails ← drain (suc mailbox_size) (suc q) s.mails
            head' ← delete head (owner pid)
            some (pos 0, head', record s { mails = mails }))
        ])
    ]

-- The new mail behind the tail, from `tail->next = kmalloc(4096)` to `length++`.
unfoldable pub append_mail :
    Mailbox → ℤ → ℤ → List ℕ → List (Node Mail) → Option (Mailbox × List (Node Mail))
append_mail box from to text h = do
  (h1, a) ← some (alloc h blank)
  h2 ← set_next h1 box.tail a
  t ← load h2 box.tail
  h3 ← set_previous h2 t.next box.tail
  u ← load h3 box.tail
  h4 ← set_next h3 u.next 0
  h5 ← set_item h4 u.next (λ m. record m { src = from; dst = to })
  n ← load h5 u.next
  text' ← kernel_memcpy n.item.message text mail_length
  h6 ← set_item h5 u.next (λ m. record m { message = text' })
  some (record box { tail = u.next; count = box.count + 1 }, h6)

unfoldable pub send_mail : Tree → ℤ → ℤ → List ℕ → Post → Option (ℤ × Post)
send_mail head from to text s = elim (find_mailbox head to) [
  | null ↦ some (negsuc 0, s)
  | node k h l r ↦ (do
    box ← deref s.boxes k.p
    (if box.head == 0 || leb mailbox_size box.count then some (negsuc 0, s) else (do
      (box', mails) ← append_mail box from to text s.mails
      some (pos 0, record { boxes = assign s.boxes k.p box'; mails = mails }))))
]

-- The first mail leaves the list: from the comparison with the tail to `length--`, with the message copied over
-- `text` and the sender.
unfoldable pub take_mail :
    Mailbox → ℕ → List ℕ → List (Node Mail) → Option (ℤ × List ℕ × Mailbox × List (Node Mail))
take_mail box temp text h = do
  let tail = if temp == box.tail then box.head else box.tail
  n ← load h temp
  text' ← kernel_memcpy text n.item.message mail_length
  h1 ← turn_back h n.next n.previous
  n1 ← load h1 temp
  h2 ← set_next h1 n1.previous n1.next
  some (n.item.src, text', record box { tail = tail; count = box.count - 1 }, h2)

-- The result, `*src` and the bytes of `message` afterwards.
unfoldable pub read_mail : Tree → ℤ → ℤ → List ℕ → Post → Option (ℤ × ℤ × List ℕ × Post)
read_mail head pid from text s = elim (find_mailbox head pid) [
  | null ↦ some (negsuc 0, from, text, s)
  | node k h l r ↦ (do
    box ← deref s.boxes k.p
    (if box.head == 0 || leb box.count 0 then some (negsuc 0, from, text, s) else (do
      first ← load s.mails box.head
      (if first.next == 0 then some (negsuc 0, from, text, s) else (do
        (from', text', box', mails) ← take_mail box first.next text s.mails
        some (pos 0, from', text', record { boxes = assign s.boxes k.p box'; mails = mails }))))))
]
