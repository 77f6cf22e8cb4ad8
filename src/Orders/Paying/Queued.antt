-- ===== src/Orders/Paying/Queued.antt =====
-- The print tasks that an order's documents become.
use printvendo_backend.Prelude.{
  Bool-cases, Option-cases, get_or, filter, All, pos, Result, ok, err, lift, ◌>>=◌, Run-cases, ℕ,
  String, ◌≡◌, refl, ap, ◌∙◌, subst, inl, inr, true, some, List, [], ◌∷◌, ◌++◌, arith,
}
use printvendo_backend.Printing.Models.{queued, PrintTask, Shop}
use printvendo_backend.Printing.Options.Workload.{Workload, workload}
use printvendo_backend.Printing.Claims.{new_task, insert_task, enqueue_task}
use printvendo_backend.Printing.Queue.{next_id}
use printvendo_backend.Orders.Models.{OrderItem, Till}
use printvendo_backend.Orders.Paying.{is_printable, options_of, enqueue_items, enqueue_item}

append_one :
    (xs : List PrintTask) (t : PrintTask) (ts : List PrintTask)
    → (xs ++ t ∷ []) ++ ts ≡ xs ++ t ∷ ts
append_one [] t ts = refl
append_one (x ∷ xs) t ts = ap (◌∷◌ x) (append_one xs t ts)

-- A task that waits at a kiosk to print an item's document as the item says, with the sheets that its
-- workload comes to.
pub record Prints (kiosk_id : ℕ) (item : OrderItem) (t : PrintTask) : Type 0 where
  pub at_kiosk : t.kiosk_id ≡ kiosk_id
  pub waits : t.state ≡ queued
  pub of_document : item.document_id ≡ some t.document_id
  pub in_place : t.position ≡ item.position
  pub as_chosen :
      record { colour = t.colour; duplex = t.duplex; copies = t.copies; page_range = t.page_range }
      ≡ options_of item
  pub load : Workload
  pub loaded : workload (options_of item) item.page_count ≡ ok load
  pub predicted : t.predicted_sheets ≡ pos load.sheets

-- A task for each item, in the order of the items, and no other.
abbrev pub PrintEach : ℕ → List OrderItem → List PrintTask → Type 0
PrintEach kiosk_id [] [] = Unit
PrintEach kiosk_id (item ∷ items) (t ∷ ts) = Prints kiosk_id item t × PrintEach kiosk_id items ts
PrintEach kiosk_id _ _ = ⊥

-- The tasks stand after those that were there.
pub record Queues (kiosk_id : ℕ) (items : List OrderItem) (s s' : Shop Till) (ts : List PrintTask)
    : Type 0 where
  pub rows : s'.tasks ≡ s.tasks ++ ts
  pub outside : s'.outside ≡ s.outside
  pub waiting : PrintEach kiosk_id items ts

append_none : (xs : List PrintTask) → xs ≡ xs ++ []
append_none [] = refl
append_none (x ∷ xs) = ap (◌∷◌ x) (append_none xs)

-- What an attempt to queue has done, if it did not raise.
abbrev pub QueuesIf : ℕ → List OrderItem → Shop Till → Result (List PrintTask) × Shop Till → Type 0
QueuesIf kiosk_id items s (err e, s') = Unit
QueuesIf kiosk_id items s (ok ts, s') = Queues kiosk_id items s s' ts

abbrev OneIf : ℕ → OrderItem → Shop Till → Result PrintTask × Shop Till → Type 0
OneIf kiosk_id item s (err e, s') = Unit
OneIf kiosk_id item s (ok t, s') =
    (s'.tasks ≡ s.tasks ++ t ∷ []) × (s'.outside ≡ s.outside) × Prints kiosk_id item t

abbrev pub ArePrintable : List OrderItem → Type 0
ArePrintable items = All (λ item. is_printable item ≡ true) items

pub filter-ArePrintable : (items : List OrderItem) → ArePrintable (filter is_printable items)
filter-ArePrintable [] = tt
filter-ArePrintable (item ∷ items) = elim (Bool-cases (is_printable item)) [
  | inl printed_item ↦ rw printed_item (printed_item, filter-ArePrintable items)
  | inr other ↦ rw other (filter-ArePrintable items)
]

-- An item that is printed has a document.
has_document :
    (item : OrderItem)
    → is_printable item ≡ true
    → item.document_id ≡ some (get_or item.document_id 0)
has_document item h = elim (Option-cases item.document_id) [
  | inr (d, e) ↦ rw e refl
  | inl missing ↦ absurd (ground (arith, missing))
]

module _ (label : ℕ → String) (now kiosk_id : ℕ) where
  loaded-OneIf :
      (item : OrderItem) (s : Shop Till) (r : Result Workload)
      → is_printable item ≡ true
      → workload (options_of item) item.page_count ≡ r
      → OneIf kiosk_id item s (
          (lift r >>= λ load. insert_task (
              new_task
                (next_id s.tasks)
                (label (next_id s.tasks))
                now
                (get_or item.document_id 0)
                kiosk_id
                (options_of item)
                item.position
                load))
            s)
  unfolding insert_task new_task
  loaded-OneIf item s (err e) h w = tt
  loaded-OneIf item s (ok load) h w = (
    refl,
    refl,
    record {
      at_kiosk = refl;
      waits = refl;
      of_document = has_document item h;
      in_place = refl;
      as_chosen = refl;
      load = load;
      loaded = w;
      predicted = refl;
    },
  )

  enqueue_item-OneIf :
      (item : OrderItem) (s : Shop Till)
      → is_printable item ≡ true
      → OneIf kiosk_id item s (enqueue_item label now kiosk_id item s)
  unfolding enqueue_task enqueue_item
  enqueue_item-OneIf item s h =
      loaded-OneIf item s (workload (options_of item) item.page_count) h refl

  pub enqueue_items-Queues :
      (items : List OrderItem) (s : Shop Till)
      → ArePrintable items
      → QueuesIf kiosk_id items s (enqueue_items label now kiosk_id items s)
  unfolding enqueue_items
  enqueue_items-Queues [] s h = record { rows = append_none s.tasks; outside = refl; waiting = tt }
  enqueue_items-Queues (item ∷ items) s h =
      elim (Run-cases (enqueue_item label now kiosk_id item s)) [
        | inr (e, s1, r) ↦ rw r tt
        | inl (t, s1, r) ↦
            let first = subst (OneIf kiosk_id item s) r (enqueue_item-OneIf item s h.0) in
            elim (Run-cases (enqueue_items label now kiosk_id items s1)) [
              | inr (e, s2, q) ↦ rw (r, q) tt
              | inl (ts, s2, q) ↦
                  let rest =
                    subst (QueuesIf kiosk_id items s1) q (enqueue_items-Queues items s1 h.1) in
                  rw (r, q)
                    (record {
                      rows = rest.rows ∙ ap (λ l. l ++ ts) first.0 ∙ append_one s.tasks t ts;
                      outside = rest.outside ∙ first.1;
                      waiting = (first.2, rest.waiting);
                    })
            ]
      ]
