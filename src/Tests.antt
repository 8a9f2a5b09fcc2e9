-- ===== src/Tests.antt =====
-- The operations on concrete caches, tables, queues, trees, words, downloads and
-- nodes.
mod Caches
mod Tables
mod Queues
mod Trees
mod Routes
mod Predicates
mod Events
mod Numbers
mod Downloads
mod Nodes
