-- ===== src/Display/Sample.antt =====
-- A list of items as `menu.h` has it: the number of items, the current one, and whether it is posted.
use tcp_archive.Prelude.{
  ℕ, suc, ◌-◌, ◌<◌, ◌≡◌, refl, none, some, Option, Bool, true, false, Bool-cases, inl, inr, ltb,
  if◌then◌else◌, arith,
}
use tcp_archive.Display.{Curses}

pub record Menu : Type 0 where
  pub count : ℕ
  pub at : ℕ
  pub posted : Bool

abbrev pub current_of : Menu → Option ℕ
current_of m = if ltb m.at m.count then some m.at else none

pub current_of-lt : (m : Menu) (i : ℕ) → current_of m ≡ some i → i < m.count
current_of-lt m i e = ground arith

abbrev pub with_items : Menu → ℕ → Menu × Bool
with_items m n = if m.posted then (m, false) else (record m { count = n; at = 0 }, true)

pub with_items-posted : (m : Menu) (n : ℕ) → m.posted ≡ true → with_items m n ≡ (m, false)
with_items-posted m n e = rw e

pub with_items-unposted : (m : Menu) (n : ℕ) → m.posted ≡ false → (with_items m n).1 ≡ true
with_items-unposted m n e = rw e

pub count_set : (m : Menu) (n : ℕ) → (with_items m n).1 ≡ true → (with_items m n).0.count ≡ n
count_set m n e = elim (Bool-cases m.posted) [
  | inl p ↦ (let no = rw p at e in cc)
  | inr p ↦ rw p refl
]

abbrev pub list_menu : Curses
list_menu = record {
  Menu = Menu;
  new_menu = record { count = 0; at = 0; posted = false };
  item_count = λ m. m.count;
  current_item = current_of;
  posted = λ m. m.posted;
  post_menu = λ m. record m { posted = true };
  unpost_menu = λ m. record m { posted = false };
  set_menu_items = with_items;
  down_item = λ m. record m { at = if ltb (suc m.at) m.count then suc m.at else m.at };
  up_item = λ m. record m { at = m.at - 1 };
  item_count-new = refl;
  set_menu_items-posted = with_items-posted;
  set_menu_items-unposted = with_items-unposted;
  item_count-set = count_set;
  posted-unpost = λ m. refl;
  item_count-unpost = λ m. refl;
  item_count-post = λ m. refl;
  item_count-down = λ m. refl;
  item_count-up = λ m. refl;
  current_lt = current_of-lt;
}
