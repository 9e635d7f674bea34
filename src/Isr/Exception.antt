-- ===== src/Isr/Exception.antt =====
-- Exceptions, from the gate to the report.
use nadir_kernel.Base.{not, ℕ, Bool, ◌&&◌, ◌||◌, List, Option, none, some, leb, ◌==◌, if◌then◌else◌}
use nadir_kernel.Console.{Console}
use nadir_kernel.Isr.{isr_noerr, isr_err, Instr}

-- The vectors with an error code, by the processors' manuals; 29 and 30 (a VMM communication and a security
-- exception) are those of AMD.
unfoldable pub has_error_code : ℕ → Bool
has_error_code v = v == 8 || leb 10 v && leb v 14 || v == 17 || v == 21 || v == 29 || v == 30

-- The vectors whose stub leaves the error code to the processor.
unfoldable pub takes_error_code : ℕ → Bool
takes_error_code v = v == 8 || leb 10 v && leb v 14 || v == 17 || v == 21

-- The vectors for which stub and processor agree: all but 29 and 30.
unfoldable pub is_matched : ℕ → Bool
is_matched v = not (v == 29 || v == 30)

-- What the processor pushes for a vector.
unfoldable pub error_code : ℕ → ℕ → Option ℕ
error_code v code = if has_error_code v then some code else none

-- Which macro a stub is made by.
macro : ℕ → List Instr
macro v = if takes_error_code v then isr_err v else isr_noerr v
