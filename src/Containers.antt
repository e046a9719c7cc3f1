-- ===== src/Containers.antt =====
-- `std::set` and `std::map` as lists in ascending order without duplicates, which is also the order
-- in which the program's loops visit them.
pub mod SortedSet
pub mod SortedMap
pub mod Sort
