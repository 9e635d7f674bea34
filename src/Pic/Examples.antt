-- ===== src/Pic/Examples.antt =====
-- The theorems on the interrupt controllers with concrete masks.
use nadir_kernel.Base.{◌≡◌, not, ◌&&◌, ◌||◌, ◌==◌, [], ◌∷◌, arith}
use nadir_kernel.Io.{Log, Bus, put}
use nadir_kernel.Io.Writes.{last_put}
use nadir_kernel.Pic.{pic_mask, pic_unmask}
use nadir_kernel.Pic.Lines.{Latches, is_masked, pic_mask-is_masked, pic_unmask-is_masked}

-- Both controllers have their mask register set, but for IRQ 4.
abbrev masks : Log
masks = put 0x21 0xef ∷ put 0xa1 0xff ∷ []

-- Controllers that answer as their manual says.
abbrev controllers : Bus
controllers log port = last_put port log

masks-Latches : Latches controllers masks
unfolding last_put
masks-Latches = record { reads = λ irq h. ground arith }

pic_unmask-is_masked_example :
    is_masked 4 (pic_unmask controllers 1 masks) ≡ (not (4 == 1) && is_masked 4 masks)
pic_unmask-is_masked_example =
    pic_unmask-is_masked controllers masks 1 4 masks-Latches (omega arith) (omega arith)

pic_mask-is_masked_example :
    is_masked 4 (pic_mask controllers 4 masks) ≡ (4 == 4 || is_masked 4 masks)
pic_mask-is_masked_example =
    pic_mask-is_masked controllers masks 4 4 masks-Latches (omega arith) (omega arith)
