-- ===== src/Nanopb/Decode.antt =====
-- ios/Pods/nanopb/pb_decode.c: decoding into a message that lies in memory.
pub mod Target
pub mod Allocate
pub mod Numbers
pub mod Blocks
pub mod Heap
pub mod Initial
pub mod Release
pub mod Host
pub mod Substream
pub mod Static
pub mod Pointer
pub mod Callback
pub mod Field
pub mod Required
pub mod RequiredSeen
pub mod RequiredSet
pub mod RequiredCount
pub mod Returns
pub mod ReturnsScan
pub mod Reaches
pub mod Tracked
pub mod AllRequired
pub mod Unknown
pub mod Released
pub mod Delimited
pub mod Confined
pub mod ConfinedStatic
pub mod Message
pub mod Done
pub mod ReleaseDone
pub mod Advances
pub mod AdvancesValues
pub mod Ending
pub mod EndingStatic
pub mod EndingPointer
pub mod EndingCallback
pub mod AdvancesTo
pub mod Stays
pub mod EndingField
pub mod EndingMessage
pub mod Enough
pub mod AllocateBounds
pub mod Stored
pub mod Restores
pub mod Sizes
pub mod ReadsBlocks
pub mod RestoresBlocks
