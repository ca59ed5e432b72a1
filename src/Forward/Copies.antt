-- ===== src/Forward/Copies.antt =====
-- What one copying goroutine keeps.
use mathlib.Core.List.{append_assoc, append-nil}
use scramjet_app.Base.{
  Bytes, [], ap, arith, drop, false, inl, length, refl, sym, take, take-append-drop, ℕ, ◌++◌, ◌∙◌,
  ◌≡◌, ◌≢◌, ◌⊎◌,
}
use scramjet_app.Forward.{
  copying, closing_second, ended, Copy, Opened, CopyStep, reads, writes, fails_to_write,
  fails_to_read, reads_end, closes_first, closes_second, read_chunk, write_chunk, return_copy,
  close,
}

-- What has been taken of the input, and which connections are closed.
pub record IsSound (input : Bytes) (o : Opened) (c : Copy) : Type 0 where
  -- what was taken is a first part of the input
  pub part : (rest : Bytes) × (input ≡ c.sink ++ rest)
  pub nothing_lost : c.phase ≡ copying → input ≡ c.sink ++ (c.held ++ c.source)
  pub complete : c.phase ≢ copying → c.failed ≡ false → c.sink ≡ input
  pub one_closed : (c.phase ≡ closing_second) ⊎ (c.phase ≡ ended) → o c.first_close ≡ false
  pub both_closed : c.phase ≡ ended → o c.second_close ≡ false

close_same : (c : ℕ) (o : Opened) → close c o c ≡ false
unfolding close
close_same c o = ground arith

pub close_other : (c d : ℕ) (o : Opened) → o d ≡ false → close c o d ≡ false
unfolding close
close_other c d o h = ground arith

module _ {input : Bytes} {o : Opened} {c : Copy} (s : IsSound input o c) where
  source_left : c.phase ≡ copying → c.held ≡ [] → input ≡ c.sink ++ c.source
  source_left copies empty = s.nothing_lost copies ∙ ap (λ h. c.sink ++ (h ++ c.source)) empty

  read_on :
      (n : ℕ)
      → c.phase ≡ copying
      → c.held ≡ []
      → input ≡ c.sink ++ (take n c.source ++ drop n c.source)
  read_on n copies empty =
      source_left copies empty ∙ ap (λ l. c.sink ++ l) (sym (take-append-drop n c.source))

  written :
      (n : ℕ) → c.phase ≡ copying → input ≡ (c.sink ++ take n c.held) ++ (drop n c.held ++ c.source)
  written n copies =
      s.nothing_lost copies
      ∙ ap (λ h. c.sink ++ (h ++ c.source)) (sym (take-append-drop n c.held))
      ∙ simp append_assoc

  all_taken : c.phase ≡ copying → c.held ≡ [] → c.source ≡ [] → c.sink ≡ input
  all_taken copies empty over =
      sym (source_left copies empty ∙ ap (λ l. c.sink ++ l) over ∙ append-nil c.sink)

  returned-IsSound :
      (d : Copy) (p : Opened)
      → d.sink ≡ c.sink
      → d.failed ≡ c.failed
      → d.phase ≢ copying
      → c.phase ≢ copying
      → ((d.phase ≡ closing_second) ⊎ (d.phase ≡ ended) → p d.first_close ≡ false)
      → (d.phase ≡ ended → p d.second_close ≡ false)
      → IsSound input p d
  returned-IsSound d p sinks fails going gone one both = record {
    part = (s.part.0, s.part.1 ∙ ap (λ l. l ++ s.part.0) (sym sinks));
    nothing_lost = λ e. absurd (going e);
    complete = λ e f. sinks ∙ s.complete gone (sym fails ∙ f);
    one_closed = one;
    both_closed = both;
  }

-- Every step of the goroutine keeps it.
pub CopyStep-IsSound :
    {input : Bytes} {o : Opened} {c d : Copy} {p : Opened}
    → CopyStep o c d p
    → IsSound input o c
    → IsSound input p d
unfolding read_chunk write_chunk return_copy
CopyStep-IsSound (reads n copies empty pos le open_from) s = record {
  part = s.part;
  nothing_lost = λ e. read_on s n copies empty;
  complete = λ e f. absurd (e copies);
  one_closed = s.one_closed;
  both_closed = s.both_closed;
}
CopyStep-IsSound {c = c} (writes copies some_held open_into) s = record {
  part = (_, written s (length c.held) copies);
  nothing_lost = λ e. written s (length c.held) copies;
  complete = λ e f. absurd (e copies);
  one_closed = s.one_closed;
  both_closed = s.both_closed;
}
CopyStep-IsSound (fails_to_write n copies lt) s = record {
  part = (_, written s n copies);
  nothing_lost = λ e. cc;
  complete = λ e f. cc;
  one_closed = λ e. ground arith;
  both_closed = λ e. cc;
}
CopyStep-IsSound (fails_to_read copies empty) s = record {
  part = s.part;
  nothing_lost = λ e. cc;
  complete = λ e f. cc;
  one_closed = λ e. ground arith;
  both_closed = λ e. cc;
}
CopyStep-IsSound (reads_end copies empty over open_from) s = record {
  part = s.part;
  nothing_lost = λ e. cc;
  complete = λ e f. all_taken s copies empty over;
  one_closed = λ e. ground arith;
  both_closed = λ e. cc;
}
CopyStep-IsSound {o = o} {c = c} (closes_first closes) s =
    returned-IsSound s _ _ refl refl (λ e. cc) (λ e. cc) (λ e. close_same c.first_close o) (λ e. cc)
CopyStep-IsSound {o = o} {c = c} (closes_second closes) s =
    returned-IsSound s _ _ refl refl (λ e. cc) (λ e. cc)
      (λ e. close_other c.second_close c.first_close o (s.one_closed (inl closes)))
      (λ e. close_same c.second_close o)
